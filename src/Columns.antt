-- ===== src/Columns.antt =====
-- The column types of server/app/models.py that take values from the wire: which JSON values a
-- TEXT, VARCHAR, INTEGER, DOUBLE or JSONB column accepts, and what it keeps of them.
use rpi_io_t_server_project.Base.{ℕ, String, true, false, Option, none, some, ltb, if◌then◌else◌}
use rpi_io_t_server_project.Base.Int.{ℤ, pos, negsuc}
use rpi_io_t_server_project.Base.Exec.{
  Result, ok, raised, data_error, integrity_error, overflow_error,
}
use rpi_io_t_server_project.Json.{Json, Double, null, bool, int, float, str}
use rpi_io_t_server_project.Platform.{Platform}

module _ (p : Platform) where
  -- A text for a column of the given length.
  abbrev pub text_value : Option ℕ → String → Result String
  text_value n s = elim (p.text_column n s) [ none ↦ raised data_error | some kept ↦ ok kept ]

  abbrev as_some : Result String → Result (Option String)
  as_some (ok s) = ok (some s)
  as_some (raised e) = raised e

  -- A text column that may be NULL; the driver refuses anything but a text.
  unfoldable pub nullable_text : Option ℕ → Json → Result (Option String)
  nullable_text n null = ok none
  nullable_text n (str s) = as_some (text_value n s)
  nullable_text n _ = raised data_error

  -- A text column that is NOT NULL.
  unfoldable pub required_text : Option ℕ → Json → Result String
  required_text n null = raised integrity_error
  required_text n (str s) = text_value n s
  required_text n _ = raised data_error

  abbrev pub jsonb_value : Json → Result Json
  jsonb_value v = if p.jsonb_column v then ok v else raised data_error

  abbrev as_double : Option Double → Result (Option Double)
  as_double none = raised overflow_error
  as_double (some d) = ok (some d)

  -- `float(value) if isinstance(value, (int, float)) else None`: a Boolean is an `int`.
  unfoldable pub double_value : Json → Result (Option Double)
  double_value (int n) = as_double (p.float_of_int n)
  double_value (bool false) = as_double (p.float_of_int (pos 0))
  double_value (bool true) = as_double (p.float_of_int (pos 1))
  double_value (float d) = ok (some d)
  double_value _ = ok none

-- A 32-bit INTEGER column.
unfoldable pub int4 : ℤ → Result ℤ
int4 (pos n) = if ltb n 2147483648 then ok (pos n) else raised data_error
int4 (negsuc n) = if ltb n 2147483648 then ok (negsuc n) else raised data_error
