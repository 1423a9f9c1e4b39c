-- ===== src/Api/TelemetryQuery.antt =====
-- server/app/routers/telemetry.py: the newest values, and the rows of the last hours.
pub mod Bounds
use rpi_io_t_server_project.Base.{
  ℕ, zero, suc, ◌-◌, ◌*◌, String, Bool, true, not, ◌&&◌, leb, ltb, select, Option, none, some, List,
  [], ◌∷◌, map, ◌==◌, nat_eq, string_eq, if◌then◌else◌,
}
use rpi_io_t_server_project.Base.Sort.{order_by}
use rpi_io_t_server_project.Base.Exec.{Exec, http, ◌>>=◌, raise, lift}
use rpi_io_t_server_project.Json.{Double}
use rpi_io_t_server_project.Models.{Db, Telemetry, TelemetryLatest}
use rpi_io_t_server_project.Platform.{Uuid, Time}
use rpi_io_t_server_project.Scheduler.Offline.{before}
use rpi_io_t_server_project.Session.{Session, read}
use rpi_io_t_server_project.Api.Permission.{check_perm}

-- The columns of the response, `TelemetryRow` of server/app/schemas.py.
pub record TelemetryRow : Type 0 where
  pub ts : Time
  pub measurement_key : String
  pub value_double : Option Double
  pub unit : Option String
  pub quality : Option String

abbrev pub row_of : Telemetry → TelemetryRow
row_of r = record {
  ts = r.ts;
  measurement_key = r.measurement_key;
  value_double = r.value_double;
  unit = r.unit;
  quality = r.quality;
}

-- LIMIT
unfoldable pub take {ℓ} : {A : Type ℓ} → ℕ → List A → List A
take zero xs = []
take (suc n) [] = []
take (suc n) (x ∷ xs) = x ∷ take n xs

abbrev pub has_key : Option String → Telemetry → Bool
has_key none r = true
has_key (some key) r = r.measurement_key == key

-- The WHERE clause.
unfoldable pub in_range : Uuid → Time → Option String → Telemetry → Bool
in_range gateway_id since key r = (r.gateway_id == gateway_id && leb since r.ts) && has_key key r

unfoldable pub get_latest :
    (String → String → Bool) → Uuid → Uuid → Exec Session (List TelemetryLatest)
get_latest key_le user_id gateway_id = do
  gw ← check_perm user_id gateway_id "view"
  read (λ db.
      order_by (λ a b. key_le a.measurement_key b.measurement_key)
        (select (λ r. r.gateway_id == gateway_id) db.telemetry_latest))

-- The bounds of the query parameters.
unfoldable pub valid_query : ℕ → ℕ → Bool
valid_query hours limit = (leb 1 hours && leb hours 720) && (leb 1 limit && leb limit 10000)

unfoldable pub get_telemetry_range :
    Time → Uuid → Uuid → Option String → ℕ → ℕ → Exec Session (List TelemetryRow)
unfolding valid_query before
get_telemetry_range now user_id gateway_id key hours limit =
    if not (valid_query hours limit) then raise (http 422) else do
      gw ← check_perm user_id gateway_id "view"
      since ← lift (before now (hours * 3600))
      read (λ db. map row_of (
          take limit (
            order_by (λ a b. leb b.ts a.ts) (select (in_range gateway_id since key) db.telemetry))))
