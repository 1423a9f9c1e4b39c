-- ===== src/System/WellFormed.antt =====
-- What is true of the database in every state that the processes reach: keys are unique, ids come from
-- the sequence, and every command belongs to a gateway.
pub mod Tables
use rpi_io_t_server_project.Base.{
  ℕ, ◌+◌, String, ◌≡◌, refl, ap, sym, ◌∙◌, Bool, true, false, not, ◌&&◌, ◌||◌, any, update, delete,
  Option, none, some, List, [], ◌∷◌, ◌++◌, ◌==◌, nat_eq, string_eq, pair_eq, arith,
}
use rpi_io_t_server_project.Base.Unique.{
  Unique, Unique-append, Unique-update, Unique-delete, any-append, any-update,
}
use rpi_io_t_server_project.Models.{
  Db, Gateway, SensorChannel, ActuatorChannel, Command, TelemetryLatest, UserGatewayPermission,
  empty_db,
}
use rpi_io_t_server_project.Platform.{Uuid}
use rpi_io_t_server_project.Worker.Heartbeat.{update_gateway}
use rpi_io_t_server_project.Worker.CommandResponse.{update_command}
use rpi_io_t_server_project.Worker.Telemetry.Upsert.{same_key}
use rpi_io_t_server_project.Scheduler.Offline.{is_stale, offline, mark_offline}
use rpi_io_t_server_project.Scheduler.Timeout.{is_overdue, timed_out, mark_timeout}
use rpi_io_t_server_project.Api.Gateways.{gateway_fits, permission_fits, in_use, remove_gateway}
use rpi_io_t_server_project.Api.Channels.{sensor_fits, actuator_fits}
use rpi_io_t_server_project.Api.Commands.{command_fits}
use rpi_io_t_server_project.System.Writes
use rpi_io_t_server_project.System.Writes.{Write, IsClosed, KeepsGateway, KeepsCommand}
use rpi_io_t_server_project.System.WellFormed.Tables.{
  upsert-Unique, AllOwned, AllOwned-mono, AllOwned-append, AllOwned-update, AllOwned-delete, owner,
  AllBelow, AllBelow-append, same_id, fresh_id,
}

-- The keys of the tables.
abbrev pub same_gateway : Gateway → Gateway → Bool
same_gateway a b = a.id == b.id || a.serial_number == b.serial_number

abbrev pub same_sensor : SensorChannel → SensorChannel → Bool
same_sensor a b = a.id == b.id || (a.gateway_id == b.gateway_id && a.slug == b.slug)

abbrev pub same_actuator : ActuatorChannel → ActuatorChannel → Bool
same_actuator a b = a.id == b.id || (a.gateway_id == b.gateway_id && a.slug == b.slug)

abbrev pub same_permission : UserGatewayPermission → UserGatewayPermission → Bool
same_permission a b =
    a.id == b.id
    || (a.user_id == b.user_id && (a.gateway_id == b.gateway_id && a.permission == b.permission))

abbrev pub same_command : Command → Command → Bool
same_command a b = a.id == b.id

abbrev pub same_month : (ℕ × ℕ) × (ℕ × ℕ) → (ℕ × ℕ) × (ℕ × ℕ) → Bool
same_month a b = a.0 == b.0

-- Nine properties: gateways are unique by id and by serial; sensor and actuator channels by id, and
-- by slug in their gateway; permissions by id, and by what they grant; commands by id; the newest
-- values by key; telemetry by id, with every id below the next one; partitions by month; and every
-- command belongs to a gateway in the table.
abbrev pub IsWellFormed : Db → Type 0
IsWellFormed d =
    Unique same_gateway d.gateways
    × Unique same_sensor d.sensor_channels
    × Unique same_actuator d.actuator_channels
    × Unique same_permission d.user_gateway_permissions
    × Unique same_command d.commands
    × Unique same_key d.telemetry_latest
    × (Unique same_id d.telemetry × AllBelow d.next_telemetry_id d.telemetry)
    × Unique same_month d.partitions
    × AllOwned d.gateways d.commands

empty-IsWellFormed : IsWellFormed empty_db
empty-IsWellFormed = (tt, tt, tt, tt, tt, tt, (tt, tt), tt, tt)

gateway_update-Unique :
    (p : Gateway → Bool) (f : Gateway → Gateway) (gs : List Gateway)
    → KeepsGateway f
    → Unique same_gateway gs
    → Unique same_gateway (update p f gs)
gateway_update-Unique p f gs k u =
    Unique-update same_gateway p f gs (λ a b. rw (k.id a, k.serial a))
      (λ a b. rw (k.id b, k.serial b)) u

gateway_update-AllOwned :
    (p : Gateway → Bool) (f : Gateway → Gateway) (gs : List Gateway) (cs : List Command)
    → KeepsGateway f
    → AllOwned gs cs
    → AllOwned (update p f gs) cs
gateway_update-AllOwned p f gs cs k os =
    AllOwned-mono gs (update p f gs) cs
      (λ c o. any-update (λ (g : Gateway). g.id == c.gateway_id) p f gs (λ g. rw (k.id g)) ∙ o) os

command_update-Unique :
    (p : Command → Bool) (f : Command → Command) (cs : List Command)
    → KeepsCommand f
    → Unique same_command cs
    → Unique same_command (update p f cs)
command_update-Unique p f cs k u =
    Unique-update same_command p f cs (λ a b. rw (k.id a)) (λ a b. rw (k.id b)) u

new_owner :
    (gs : List Gateway) (g : Gateway) (c : Command)
    → owner gs c ≡ true
    → owner (gs ++ g ∷ []) c ≡ true
new_owner gs g c o =
    ground (arith, any-append (λ (x : Gateway). x.id == c.gateway_id) gs (g ∷ []), o)

keep-Write : (d d' : Db) → Write d d' → IsWellFormed d → IsWellFormed d'
unfolding gateway_fits permission_fits sensor_fits actuator_fits command_fits in_use update_gateway
    update_command remove_gateway mark_offline mark_timeout
keep-Write d d' (Writes.add_company _ c) w = w
keep-Write d d' (Writes.add_site _ c) w = w
keep-Write d d' (Writes.add_sensor_profile _ c) w = w
keep-Write d d' (Writes.add_gateway _ g h) (gs, sc, ac, ps, cs, ls, ts, ms, os) = (
  Unique-append same_gateway d.gateways g (ground arith) gs,
  sc,
  ac,
  ps,
  cs,
  ls,
  ts,
  ms,
  AllOwned-mono d.gateways (d.gateways ++ g ∷ []) d.commands (new_owner d.gateways g) os,
)
keep-Write d d' (Writes.add_permission _ r h) (gs, sc, ac, ps, cs, ls, ts, ms, os) = (
  gs,
  sc,
  ac,
  Unique-append same_permission d.user_gateway_permissions r (ground arith) ps,
  cs,
  ls,
  ts,
  ms,
  os,
)
keep-Write d d' (Writes.change_gateway _ k f h) (gs, sc, ac, ps, cs, ls, ts, ms, os) = (
  gateway_update-Unique (λ g. g.id == k) f d.gateways h gs,
  sc,
  ac,
  ps,
  cs,
  ls,
  ts,
  ms,
  gateway_update-AllOwned (λ g. g.id == k) f d.gateways d.commands h os,
)
keep-Write d d' (Writes.drop_gateway _ k h) (gs, sc, ac, ps, cs, ls, ts, ms, os) = (
  Unique-delete same_gateway (λ g. g.id == k) d.gateways gs,
  Unique-delete same_sensor (λ c. c.gateway_id == k) d.sensor_channels sc,
  Unique-delete same_actuator (λ c. c.gateway_id == k) d.actuator_channels ac,
  ps,
  cs,
  ls,
  ts,
  ms,
  AllOwned-delete k d.gateways d.commands _ h os,
)
keep-Write d d' (Writes.add_sensor _ c h) (gs, sc, ac, ps, cs, ls, ts, ms, os) = (
  gs,
  Unique-append same_sensor d.sensor_channels c (ground arith) sc,
  ac,
  ps,
  cs,
  ls,
  ts,
  ms,
  os,
)
keep-Write d d' (Writes.drop_sensor _ k) (gs, sc, ac, ps, cs, ls, ts, ms, os) = (
  gs,
  Unique-delete same_sensor (λ c. c.id == k) d.sensor_channels sc,
  ac,
  ps,
  cs,
  ls,
  ts,
  ms,
  os,
)
keep-Write d d' (Writes.add_actuator _ c h) (gs, sc, ac, ps, cs, ls, ts, ms, os) = (
  gs,
  sc,
  Unique-append same_actuator d.actuator_channels c (ground arith) ac,
  ps,
  cs,
  ls,
  ts,
  ms,
  os,
)
keep-Write d d' (Writes.drop_actuator _ k h) (gs, sc, ac, ps, cs, ls, ts, ms, os) = (
  gs,
  sc,
  Unique-delete same_actuator (λ c. c.id == k) d.actuator_channels ac,
  ps,
  cs,
  ls,
  ts,
  ms,
  os,
)
keep-Write d d' (Writes.add_command _ c ch u e h) (gs, sc, ac, ps, cs, ls, ts, ms, os) = (
  gs,
  sc,
  ac,
  ps,
  Unique-append same_command d.commands c (ground arith) cs,
  ls,
  ts,
  ms,
  AllOwned-append d.gateways d.commands c os (ground arith),
)
keep-Write d d' (Writes.change_command _ k f h) (gs, sc, ac, ps, cs, ls, ts, ms, os) = (
  gs,
  sc,
  ac,
  ps,
  command_update-Unique (λ c. c.id == k) f d.commands h cs,
  ls,
  ts,
  ms,
  AllOwned-update d.gateways (λ c. c.id == k) f d.commands h.gateway os,
)
keep-Write d d' (Writes.add_telemetry _ r e) (gs, sc, ac, ps, cs, ls, ts, ms, os) = (
  gs,
  sc,
  ac,
  ps,
  cs,
  ls,
  (
    Unique-append same_id d.telemetry r (fresh_id d.next_telemetry_id d.telemetry r ts.1 e) ts.0,
    AllBelow-append d.next_telemetry_id d.telemetry r ts.1 e,
  ),
  ms,
  os,
)
keep-Write d d' (Writes.set_latest _ r) (gs, sc, ac, ps, cs, ls, ts, ms, os) =
    (gs, sc, ac, ps, cs, upsert-Unique r d.telemetry_latest ls, ts, ms, os)
keep-Write d d' (Writes.offline_gateways _ t) (gs, sc, ac, ps, cs, ls, ts, ms, os) =
    let k : KeepsGateway offline = record { id = λ g. refl; serial = λ g. refl } in
    (
      gateway_update-Unique (is_stale t) offline d.gateways k gs,
      sc,
      ac,
      ps,
      cs,
      ls,
      ts,
      ms,
      gateway_update-AllOwned (is_stale t) offline d.gateways d.commands k os,
    )
keep-Write d d' (Writes.timeout_commands _ now) (gs, sc, ac, ps, cs, ls, ts, ms, os) =
    let k : KeepsCommand (timed_out now) = record { id = λ c. refl; gateway = λ c. refl } in
    (
      gs,
      sc,
      ac,
      ps,
      command_update-Unique (is_overdue now) (timed_out now) d.commands k cs,
      ls,
      ts,
      ms,
      AllOwned-update d.gateways (is_overdue now) (timed_out now) d.commands k.gateway os,
    )
keep-Write d d' (Writes.add_partition _ part h) (gs, sc, ac, ps, cs, ls, ts, ms, os) =
    (gs, sc, ac, ps, cs, ls, ts, Unique-append same_month d.partitions part h ms, os)

pub IsWellFormed-IsClosed : IsClosed IsWellFormed
IsWellFormed-IsClosed = record { keep = keep-Write }
