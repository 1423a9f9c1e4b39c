-- ===== src/Jwks.antt =====
-- server/app/utils/jwks.py: the cache of the identity provider's public keys. A kid of the key set
-- is a text (RFC 7517); a key whose kid is another scalar is left out. The lock makes each call of
-- `get_key` one step.
pub mod Refresh
use rpi_io_t_server_project.Base.{
  ℕ, ◌+◌, ◌*◌, String, Bool, true, false, not, ◌||◌, ltb, Option, none, some, List, [], ◌∷◌, ◌==◌,
  string_eq, if◌then◌else◌,
}
use rpi_io_t_server_project.Base.Dict
use rpi_io_t_server_project.Base.Dict.{Dict}
use rpi_io_t_server_project.Base.Exec.{
  Exec, Result, ok, raised, attribute_error, type_error, value_error,
}
use rpi_io_t_server_project.Json.{Json, str, arr, obj, nil, items, get, get_or, truthy}

-- `time.time()` in microseconds.
abbrev pub UnixTime : Type 0
UnixTime = ℕ

pub record JwksCache : Type 0 where
  pub url : String
  pub ttl : ℕ
  pub timeout : ℕ
  pub keys : Dict String Json
  pub fetched_at : UnixTime

-- `JWKSCache(...)`
abbrev pub new_cache : String → ℕ → ℕ → JwksCache
new_cache url ttl timeout = record {
  url = url;
  ttl = ttl;
  timeout = timeout;
  keys = [];
  fetched_at = 0;
}

-- `time.time() - self._fetched_at > self._ttl`
unfoldable pub is_stale : UnixTime → JwksCache → Bool
is_stale now c = ltb (c.fetched_at + c.ttl * 1_000_000) now

-- `if kid: new_map[kid] = k`
unfoldable pub add_key : Json → Json → Dict String Json → Result (Dict String Json)
add_key kid k map = if not (truthy kid) then ok map else elim kid [
  | str s ↦ ok (Dict.set s k map)
  | arr _ ↦ raised type_error
  | obj _ ↦ raised type_error
  | _ ↦ ok map
]

-- The loop over the keys of the response.
unfoldable pub collect_keys : List Json → Dict String Json → Result (Dict String Json)
unfolding add_key
collect_keys [] map = ok map
collect_keys (k ∷ ks) map = elim (get k "kid") [
  | raised e ↦ raised e
  | ok kid ↦ elim (add_key kid k map) [ raised e ↦ raised e | ok map' ↦ collect_keys ks map' ]
]

-- `_fetch`, for the parsed response, or `none` if the request or its parsing failed.
unfoldable pub fetch : UnixTime → Option Json → JwksCache → Result JwksCache
fetch now none c = raised value_error
fetch now (some jwks) c = elim (get_or jwks "keys" (arr nil)) [
  | raised e ↦ raised e
  | ok keys ↦ elim keys [
    | arr vs ↦ elim (collect_keys (items vs) []) [
      | raised e ↦ raised e
      | ok map ↦ ok (record c { keys = map; fetched_at = now })
    ]
    | _ ↦ raised value_error
  ]
]

-- `kid in self._keys`, and `self._keys.get(kid)`: a list or an object cannot be hashed.
unfoldable pub find_key : Json → Dict String Json → Result (Option Json)
find_key (str s) keys = ok (Dict.get s keys)
find_key (arr _) keys = raised type_error
find_key (obj _) keys = raised type_error
find_key _ keys = ok none

module _ (now : UnixTime) (response : Option Json) where
  -- A refresh: if it fails, the old keys stay and the answer is `None`.
  unfoldable pub refreshed : Json → Exec JwksCache (Option Json)
  unfolding fetch find_key
  refreshed kid c = elim (fetch now response c) [
    | raised e ↦ (ok none, c)
    | ok c' ↦ (find_key kid c'.keys, c')
  ]

  -- `get_key`: the keys are fetched again when they are stale or lack the kid.
  unfoldable pub get_key : Json → Exec JwksCache (Option Json)
  unfolding is_stale refreshed
  get_key kid c = if is_stale now c then refreshed kid c else elim (find_key kid c.keys) [
    | raised e ↦ (raised e, c)
    | ok none ↦ refreshed kid c
    | ok (some k) ↦ (ok (some k), c)
  ]
