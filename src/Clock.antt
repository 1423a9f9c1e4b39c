-- ===== src/Clock.antt =====
-- server/app/utils/time.py: times from the wire. `utcnow()` is the parameter `now`: a call of a
-- handler reads the clock once.
use rpi_io_t_server_project.Base.{String, Option, none, some, ◌==◌, nat_eq, if◌then◌else◌, ◌<>◌}
use rpi_io_t_server_project.Base.Exec.{Result, ok, raised, attribute_error, value_error}
use rpi_io_t_server_project.Json.{Json, str, truthy}
use rpi_io_t_server_project.Platform.{Platform, Time, IsoTime, aware, naive}
use Prim.Native.Char.{code}

-- `s.replace("Z", "+00:00")`
unfoldable pub replace_z : String → String
replace_z String.[] = ""
replace_z (String.◌∷◌ c s) =
    let rest = replace_z s in if code c == b'Z' then "+00:00" <> rest else String.◌∷◌ c rest

-- A naive time is read as UTC.
abbrev as_utc : Option IsoTime → Result Time
as_utc none = raised value_error
as_utc (some (aware t)) = ok t
as_utc (some (naive t)) = ok t

module _ (p : Platform) (now : Time) where
  abbrev parse_truthy : Json → Result Time
  parse_truthy (str s) = as_utc (p.fromisoformat (replace_z s))
  parse_truthy _ = raised attribute_error

  -- A missing, null or empty text is the current time.
  unfoldable pub parse_iso8601 : Json → Result Time
  parse_iso8601 s = if truthy s then parse_truthy s else ok now
