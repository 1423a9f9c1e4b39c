-- ===== src/Worker/Lookups.antt =====
-- server/worker/handlers/_lookups.py: from the serial of a gateway and the slug of a channel to
-- their UUIDs, through the caches of the worker process.
pub mod Staleness
pub mod Fresh
use rpi_io_t_server_project.Base.{
  ℕ, suc, ◌+◌, String, ◌≡◌, Bool, ltb, ◌&&◌, Option, none, some, List, [], ◌∷◌, map, select, ◌==◌,
  Eq, nat_eq, string_eq, pair_eq, if◌then◌else◌,
}
use rpi_io_t_server_project.Base.Dict
use rpi_io_t_server_project.Base.Dict.{Dict}
use rpi_io_t_server_project.Base.Exec.{
  Exec, Result, ok, raised, multiple_results, ◌>>=◌, lift, pure, gets,
}
use rpi_io_t_server_project.Models.{Db, Gateway, SensorChannel, ActuatorChannel}
use rpi_io_t_server_project.Platform.{Uuid}
use rpi_io_t_server_project.Session.{Session, scalar_one_or_none}

-- `time.monotonic()` in microseconds.
abbrev pub Instant : Type 0
Instant = ℕ

abbrev pub ttl : ℕ
ttl = 60_000_000

-- The coming results of `time.monotonic()`, in order.
abbrev pub Readings : Type 0
Readings = ℕ → Instant

abbrev pub later : Readings → Readings
later readings n = readings (suc n)

-- What was found for a key, perhaps nothing, and when the entry expires.
pub record Entry : Type 0 where
  pub found : Option Uuid
  pub expires_at : Instant

-- The worker process: its caches, its clock, and the session of the message at hand.
pub record Worker : Type 0 where
  pub gateway_cache : Dict String Entry
  pub sensor_channel_cache : Dict (Uuid × String) Entry
  pub actuator_channel_cache : Dict (Uuid × String) Entry
  pub readings : Readings
  pub session : Session

-- `_expired`: at its very end an entry still counts.
unfoldable pub expired : Instant → Entry → Bool
expired now entry = ltb entry.expires_at now

module _ {K : Type 0} ⦃e : Eq K⦄ where
  -- A query whose answer is stored, with the clock read after it.
  abbrev pub refill :
      Readings
      → K
      → Dict K Entry
      → Result (Option Uuid)
      → Result (Option Uuid) × Dict K Entry × Readings
  refill readings key cache (ok found) = (
    ok found,
    Dict.set key (record { found = found; expires_at = readings 0 + ttl }) cache,
    later readings,
  )
  refill readings key cache (raised x) = (raised x, cache, readings)

  -- A live entry answers, and otherwise the query does. The clock is read for an entry.
  unfoldable pub answer :
      Readings
      → K
      → Result (Option Uuid)
      → Dict K Entry
      → Option Entry
      → Result (Option Uuid) × Dict K Entry × Readings
  unfolding expired
  answer readings key query cache none = refill readings key cache query
  answer readings key query cache (some entry) =
      if expired (readings 0) entry
      then refill (later readings) key cache query
      else (ok entry.found, cache, later readings)

  -- The shape of all three lookups.
  unfoldable pub through_cache :
      Readings
      → K
      → Result (Option Uuid)
      → Dict K Entry
      → Result (Option Uuid) × Dict K Entry × Readings
  unfolding answer
  through_cache readings key query cache = answer readings key query cache (Dict.get key cache)

-- The queries.
unfoldable pub query_gateway : String → Db → Result (Option Uuid)
query_gateway serial db =
    scalar_one_or_none (map (λ g. g.id) (select (λ g. g.serial_number == serial) db.gateways))

unfoldable pub query_sensor_channel : Uuid → String → Db → Result (Option Uuid)
query_sensor_channel gateway_id slug db = scalar_one_or_none (
    map (λ c. c.id) (select (λ c. c.gateway_id == gateway_id && c.slug == slug) db.sensor_channels))

unfoldable pub query_actuator_channel : Uuid → String → Db → Result (Option Uuid)
query_actuator_channel gateway_id slug db = scalar_one_or_none (
    map (λ c. c.id)
      (select (λ c. c.gateway_id == gateway_id && c.slug == slug) db.actuator_channels))

unfoldable pub gateway_uuid_by_serial : String → Exec Worker (Option Uuid)
unfolding through_cache
gateway_uuid_by_serial serial w =
    let (r, cache, readings) =
      through_cache w.readings serial (query_gateway serial w.session.working) w.gateway_cache in
    (r, record w { gateway_cache = cache; readings = readings })

unfoldable pub sensor_channel_uuid_by_slug : Uuid → String → Exec Worker (Option Uuid)
unfolding through_cache
sensor_channel_uuid_by_slug gateway_id slug w =
    let (r, cache, readings) =
      through_cache w.readings (gateway_id, slug)
        (query_sensor_channel gateway_id slug w.session.working) w.sensor_channel_cache in
    (r, record w { sensor_channel_cache = cache; readings = readings })

unfoldable pub actuator_channel_by_slug : Uuid → String → Exec Worker (Option Uuid)
unfolding through_cache
actuator_channel_by_slug gateway_id slug w =
    let (r, cache, readings) =
      through_cache w.readings (gateway_id, slug)
        (query_actuator_channel gateway_id slug w.session.working) w.actuator_channel_cache in
    (r, record w { actuator_channel_cache = cache; readings = readings })

-- `invalidate_gateway`
unfoldable pub invalidate_gateway : String → Worker → Worker
invalidate_gateway serial w = record w { gateway_cache = Dict.pop serial w.gateway_cache }

-- `invalidate_all`
unfoldable pub invalidate_all : Worker → Worker
invalidate_all w = record w {
  gateway_cache = [];
  sensor_channel_cache = [];
  actuator_channel_cache = [];
}
