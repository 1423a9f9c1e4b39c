-- ===== src/Worker/Heartbeat.antt =====
-- server/worker/handlers/heartbeat.py: gw/{serial}/heartbeat.
pub mod Effect
use rpi_io_t_server_project.Base.{
  String, Option, none, some, update, find?, ◌==◌, nat_eq, string_eq, if◌then◌else◌,
}
use rpi_io_t_server_project.Base.Exec.{Exec, ◌>>=◌, ◌>>◌, pure, lift}
use rpi_io_t_server_project.Json.{Json, get}
use rpi_io_t_server_project.Models.{Db, Gateway}
use rpi_io_t_server_project.Platform.{Platform, Uuid, Time}
use rpi_io_t_server_project.Clock.{parse_iso8601}
use rpi_io_t_server_project.Session.{Session, read, write, commit}

-- `session.get(Gateway, gateway_id)`
unfoldable pub get_gateway : Uuid → Db → Option Gateway
get_gateway gateway_id db = find? (λ g. g.id == gateway_id) db.gateways

-- The UPDATE that a commit makes of a changed gateway.
unfoldable pub update_gateway : Uuid → (Gateway → Gateway) → Db → Db
update_gateway gateway_id f db = record db {
  gateways = update (λ g. g.id == gateway_id) f db.gateways;
}

-- A heartbeat brings a gateway back that was offline, and no other.
unfoldable pub revived : String → String
revived status = if status == "offline" then "online" else status

-- The columns that the UPDATE sets.
abbrev pub seen : Time → String → Gateway → Gateway
seen ts status g = record g { last_seen_at = some ts; status = status }

module _ (p : Platform) (now : Time) where
  unfoldable pub handle : Uuid → Json → Exec Session (Unit {0})
  unfolding get_gateway update_gateway revived
  handle gateway_id body = do
    found ← read (get_gateway gateway_id)
    elim found [
      | none ↦ pure tt
      | some gw ↦ do
        stamp ← lift (get body "timestamp")
        ts ← lift (parse_iso8601 p now stamp)
        write (update_gateway gateway_id (seen ts (revived gw.status)))
        commit
    ]
