-- ===== src/Json.antt =====
-- JSON values as `json.loads` returns them, and what Python does with them: truth, `.get`, `in`
-- and `isinstance`. A float is its 64-bit pattern; the code only moves floats and tests them for 0.
use rpi_io_t_server_project.Base.{
  ℕ, ◌^◌, String, Bool, true, false, not, ◌||◌, Option, none, some, List, [], ◌∷◌, ◌==◌, nat_eq,
  string_eq, if◌then◌else◌,
}
use rpi_io_t_server_project.Base.Int.{ℤ, pos}
use rpi_io_t_server_project.Base.Exec.{Result, ok, raised, attribute_error, type_error}

abbrev pub Double : Type 0
Double = ℕ

mutual
  pub data Json : Type 0 where
    null : Json
    bool : Bool → Json
    int : ℤ → Json
    float : Double → Json
    str : String → Json
    arr : Items → Json
    obj : Fields → Json

  pub data Items : Type 0 where
    nil : Items
    cons : Json → Items → Items

  pub data Fields : Type 0 where
    end : Fields
    field : String → Json → Fields → Fields

abbrev pub items : Items → List Json
items nil = []
items (cons v vs) = v ∷ items vs

-- `fields.get(key)`, where a missing key is told from a null.
unfoldable pub lookup : String → Fields → Option Json
lookup key end = none
lookup key (field k v fs) = let rest = lookup key fs in if k == key then some v else rest

-- `bool(v)`: zero, the empty string and the empty containers are false.
unfoldable pub truthy : Json → Bool
truthy null = false
truthy (bool b) = b
truthy (int n) = elim n [ pos k ↦ not (k == 0) | _ ↦ true ]
truthy (float bits) = not (bits == 0 || bits == 2 ^ 63)
truthy (str s) = not (s == "")
truthy (arr nil) = false
truthy (arr _) = true
truthy (obj end) = false
truthy (obj _) = true

-- `body.get(key, default)`: anything but an object has no such method.
unfoldable pub get_or : Json → String → Json → Result Json
get_or (obj fs) key default = ok (elim (lookup key fs) [ none ↦ default | some v ↦ v ])
get_or _ key default = raised attribute_error

-- `body.get(key)`
unfoldable pub get : Json → String → Result Json
unfolding get_or
get body key = get_or body key null

-- `for v in values`: a string gives its characters, an object its keys, and a number or null is
-- no iterable. Characters and keys are given here as strings of unknown text, for the loop body
-- calls a method that no string has.
unfoldable pub iterate : Json → Result (List Json)
iterate (arr vs) = ok (items vs)
iterate (str s) = ok (str s ∷ [])
iterate (obj end) = ok []
iterate (obj (field k v fs)) = ok (str k ∷ [])
iterate _ = raised type_error
