-- ===== src/Hwpx/Escape.antt =====
-- `html.escape` of Python's standard library, through which every text of the document of
-- tools/build_plan_hwpx.py passes.
use rpi_io_t_server_project.Base.{String, ◌<>◌, ◌==◌, nat_eq, if◌then◌else◌}
use Prim.Native.Char.{Char, code}

-- What one character becomes. Python replaces the ampersand first, so this is what the five
-- replacements do together.
unfoldable pub escape_char : Char → String
escape_char c =
    if code c == b'&'
    then "&amp;"
    else if code c == b'<'
    then "&lt;"
    else if code c == b'>'
    then "&gt;"
    else if code c == b'"'
    then "&quot;"
    else if code c == 39
    then "&#x27;"
    else String.◌∷◌ c ""

unfoldable pub escape : String → String
unfolding escape_char
escape String.[] = ""
escape (String.◌∷◌ c s) = escape_char c <> escape s
