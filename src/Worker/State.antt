-- ===== src/Worker/State.antt =====
-- server/worker/handlers/state.py: gw/{serial}/state, the retained status of a gateway.
pub mod Effect
use rpi_io_t_server_project.Base.{
  String, Bool, true, false, ◌||◌, Option, none, some, ◌==◌, string_eq, if◌then◌else◌,
}
use rpi_io_t_server_project.Base.Int.{ℤ, pos}
use rpi_io_t_server_project.Base.Exec.{Exec, Result, ok, raised, ◌>>=◌, ◌>>◌, pure, lift}
use rpi_io_t_server_project.Json.{Json, bool, int, str, obj, lookup, get, get_or}
use rpi_io_t_server_project.Models.{Gateway}
use rpi_io_t_server_project.Platform.{Platform, Uuid, Time}
use rpi_io_t_server_project.Clock.{parse_iso8601}
use rpi_io_t_server_project.Columns.{nullable_text, int4}
use rpi_io_t_server_project.Session.{Session, read, write, commit}
use rpi_io_t_server_project.Worker.Heartbeat.{get_gateway, update_gateway}

-- `v == text` for a value of the body.
unfoldable pub is_text : Json → String → Bool
is_text (str s) t = s == t
is_text _ t = false

-- `new_status if new_status in ("online", "offline", "shutdown") else "offline"`
unfoldable pub known_status : Json → String
known_status (str s) = if s == "online" || s == "offline" || s == "shutdown" then s else "offline"
known_status _ = "offline"

-- `key in body`, for the object that a body is once `.get` has been called on it.
unfoldable pub member : String → Json → Option Json
member key (obj fs) = lookup key fs
member key _ = none

-- The columns that the handler sets.
pub record Reported : Type 0 where
  pub status : String
  pub app_version : Option String
  pub firmware_version : Option String
  pub config_version : ℤ
  pub last_seen_at : Option Time

abbrev pub set_reported : Reported → Gateway → Gateway
set_reported columns g = record g {
  status = columns.status;
  app_version = columns.app_version;
  firmware_version = columns.firmware_version;
  config_version = columns.config_version;
  last_seen_at = columns.last_seen_at;
}

module _ (p : Platform) (now : Time) where
  -- A version text: the column keeps its value where the body does not name it.
  unfoldable pub version : Option Json → Option String → Result (Option String)
  version none old = ok old
  version (some v) old = nullable_text p (some 64) v

  -- `isinstance(body["config_version"], int)`: a Boolean counts, as 0 or 1.
  unfoldable pub config_version : Option Json → ℤ → Result ℤ
  unfolding int4
  config_version (some (int n)) old = int4 n
  config_version (some (bool false)) old = ok (pos 0)
  config_version (some (bool true)) old = ok (pos 1)
  config_version _ old = ok old

  -- When the gateway was last seen: its own time if it says that it is online, and the server's
  -- if the broker reports its loss.
  unfoldable pub last_seen : Json → Json → Option Time → Result (Option Time)
  unfolding is_text parse_iso8601
  last_seen body new_status old =
      if is_text new_status "online"
      then elim (get body "timestamp") [
        | raised e ↦ raised e
        | ok stamp ↦ elim (parse_iso8601 p now stamp) [ ok ts ↦ ok (some ts) | raised e ↦ raised e ]
      ]
      else if is_text new_status "offline"
      then elim (get body "reason") [
        | raised e ↦ raised e
        | ok reason ↦ ok (if is_text reason "lwt" then some now else old)
      ]
      else ok old

  -- What a message says of the columns, from the row of the gateway as it is.
  unfoldable pub reported : Json → Gateway → Exec Session Reported
  reported body gw = do
    new_status ← lift (get_or body "status" (str "online"))
    seen_at ← lift (last_seen body new_status gw.last_seen_at)
    app ← lift (version (member "app_version" body) gw.app_version)
    firmware ← lift (version (member "firmware_version" body) gw.firmware_version)
    config ← lift (config_version (member "config_version" body) gw.config_version)
    pure (record {
      status = known_status new_status;
      app_version = app;
      firmware_version = firmware;
      config_version = config;
      last_seen_at = seen_at;
    })

  unfoldable pub handle : Uuid → Json → Exec Session (Unit {0})
  unfolding get_gateway update_gateway
  handle gateway_id body = do
    found ← read (get_gateway gateway_id)
    elim found [
      | none ↦ pure tt
      | some gw ↦ do
        columns ← reported body gw
        write (update_gateway gateway_id (set_reported columns))
        commit
    ]
