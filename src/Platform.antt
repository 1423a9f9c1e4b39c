-- ===== src/Platform.antt =====
-- What the program takes from code that is not in the repository: Python's `json`, `float` and
-- `datetime`, and the PostgreSQL column types as its driver presents them.
use rpi_io_t_server_project.Base.{ℕ, String, Bool, Option, List}
use rpi_io_t_server_project.Base.Int.{ℤ}
use rpi_io_t_server_project.Json.{Json, Double}

-- A UUID is a 128-bit number; the program only compares UUIDs.
abbrev pub Uuid : Type 0
Uuid = ℕ

-- An aware `datetime`: the microseconds since 0001-01-01T00:00:00Z, which is `datetime.min`.
abbrev pub Time : Type 0
Time = ℕ

-- What `datetime.fromisoformat` returns: the instant of a text with an offset, or the wall clock of
-- one without.
pub data IsoTime : Type 0 where
  aware : Time → IsoTime
  naive : Time → IsoTime

-- What `json.loads` does with the bytes of a payload.
pub data Loaded : Type 0 where
  loaded : Json → Loaded
  bad_json : Loaded
  bad_unicode : Loaded

pub record Platform : Type 0 where
  -- `datetime.fromisoformat`, `none` for its `ValueError`
  pub fromisoformat : String → Option IsoTime
  -- `json.loads` of a byte string
  pub loads : List ℕ → Loaded
  -- `float(n)`, `none` for its `OverflowError`
  pub float_of_int : ℤ → Option Double
  -- what a TEXT (`none`) or VARCHAR(n) (`some n`) column keeps of a text, `none` where it refuses
  pub text_column : Option ℕ → String → Option String
  -- whether a JSONB column takes the value
  pub jsonb_column : Json → Bool
  -- `t.year` and `t.month`
  pub year_month : Time → ℕ × ℕ
