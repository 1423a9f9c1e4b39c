-- ===== src/Worker/Topic.antt =====
-- The topic pattern of server/worker/handlers/__init__.py:
-- ^gw/(?P<serial>[A-Za-z0-9_-]+)/(?P<kind>[a-z_/]+)$, as Python's `re.match` reads it. Its `$` also
-- matches before a newline that ends the text.
pub mod Groups
use rpi_io_t_server_project.Base.{
  ℕ, String, ◌<>◌, Bool, true, false, ◌||◌, ◌&&◌, leb, Option, none, some, ◌==◌, nat_eq, string_eq,
  if◌then◌else◌,
}
use Prim.Native.Char.{Char, code}

between : ℕ → ℕ → ℕ → Bool
between lo hi c = leb lo c && leb c hi

-- [A-Za-z0-9_-]
unfoldable pub slug_char : Char → Bool
unfolding between
slug_char c =
    let n = code c in
    between b'A' b'Z' n
    || (between b'a' b'z' n || (between b'0' b'9' n || (n == b'_' || n == b'-')))

-- [a-z_/]
unfoldable pub kind_char : Char → Bool
unfolding between
kind_char c = let n = code c in between b'a' b'z' n || (n == b'_' || n == b'/')

-- A nonempty text of characters of the class: `[...]+`, anchored at both ends.
unfoldable pub all_chars : (Char → Bool) → String → Bool
all_chars p String.[] = true
all_chars p (String.◌∷◌ c s) = p c && all_chars p s

unfoldable pub is_empty : String → Bool
is_empty String.[] = true
is_empty (String.◌∷◌ c s) = false

-- The text up to the first slash, and what follows that slash.
unfoldable pub cut_slash : String → Option (String × String)
cut_slash String.[] = none
cut_slash (String.◌∷◌ c s) =
    let rest = cut_slash s in
    if code c == b'/'
    then some ("", s)
    else elim rest [ none ↦ none | some (a, b) ↦ some (String.◌∷◌ c a, b) ]

-- `$`: one newline at the very end is passed over.
unfoldable pub chomp : String → String
chomp String.[] = ""
chomp (String.◌∷◌ c s) =
    let rest = chomp s in if code c == 10 && is_empty s then "" else String.◌∷◌ c rest

-- `^gw/`
unfoldable pub strip_gw : String → Option String
strip_gw (String.◌∷◌ a (String.◌∷◌ b (String.◌∷◌ c s))) =
    if code a == b'g' && (code b == b'w' && code c == b'/') then some s else none
strip_gw _ = none

-- The groups `serial` and `kind` of a topic that matches.
unfoldable pub match_topic : String → Option (String × String)
match_topic topic = elim (strip_gw topic) [
  | none ↦ none
  | some s ↦ elim (cut_slash s) [
    | none ↦ none
    | some (serial, rest) ↦
        let kind = chomp rest in
        if all_chars slug_char serial
          && (all_chars kind_char kind
              && (if is_empty serial then false else if is_empty kind then false else true))
        then some (serial, kind)
        else none
  ]
]
