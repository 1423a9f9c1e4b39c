-- ===== src/Tests/Tokens.antt =====
-- The theorems on tokens and keys at concrete inputs.
use rpi_io_t_server_project.Base.{
  ◌≡◌, ◌≤◌, ◌+◌, ◌*◌, refl, none, some, [], ◌∷◌, string_eq, if◌then◌else◌, ◌==◌,
}
use rpi_io_t_server_project.Base.Dict
use rpi_io_t_server_project.Base.Exec.{ok}
use rpi_io_t_server_project.Config.{defaults}
use rpi_io_t_server_project.Json.{
  Json, str, obj, arr, cons, nil, field, end, get, get_or, lookup, truthy,
}
use rpi_io_t_server_project.Jwks.{JwksCache, new_cache, get_key, find_key, is_stale, collect_keys}
use rpi_io_t_server_project.Jwks.Refresh.{get_key_sound, get_key_offline}
use rpi_io_t_server_project.Auth.{Jose, TokenPayload, get_token, get_cache}
use rpi_io_t_server_project.Auth.Verified.{IsVerified, get_token-IsVerified}

abbrev key : Json
key = obj (field "kid" (str "k1") end)

abbrev key_set : Json
key_set = obj (field "keys" (arr (cons key nil)) end)

abbrev empty_cache : JwksCache
empty_cache = new_cache "http://localhost/certs" 3600 5

get_key_sound_example :
    (find_key (str "k1") (get_key 9_000_000_000 (some key_set) (str "k1") empty_cache).1.keys
      ≡ ok (some key))
    × (9_000_000_000
        ≤ (get_key 9_000_000_000 (some key_set) (str "k1") empty_cache).1.fetched_at
          + (get_key 9_000_000_000 (some key_set) (str "k1") empty_cache).1.ttl * 1_000_000)
unfolding get_key get_or lookup collect_keys get truthy Dict.get Dict.set
get_key_sound_example = get_key_sound 9_000_000_000 (some key_set) (str "k1") empty_cache key refl

abbrev full_cache : JwksCache
full_cache = record empty_cache { keys = ("k1", key) ∷ []; fetched_at = 8_000_000_000 }

get_key_offline_example :
    ((get_key 9_000_000_000 none (str "k1") full_cache).1 ≡ full_cache)
    × ((get_key 9_000_000_000 none (str "k1") full_cache).0 ≡ ok (some key))
unfolding is_stale find_key Dict.get
get_key_offline_example = get_key_offline 9_000_000_000 none (str "k1") full_cache refl

abbrev claims : Json
claims = obj (field "sub" (str "sim-admin") end)

abbrev jose : Jose
jose = record {
  unverified_header = λ t. some key;
  decode_unverified = λ t. some claims;
  decode = λ t k a aud iss. if t == "signed" then some claims else none;
  strip = λ s. s;
}

abbrev payload : TokenPayload
payload = record {
  raw = claims;
  sub = str "sim-admin";
  email = str "";
  preferred_username = str "";
  realm_roles = arr nil;
}

get_token-IsVerified_example :
    IsVerified jose defaults 9_000_000_000
      (some key_set)
      "signed"
      claims
      (get_token jose defaults 9_000_000_000 (some key_set) (some "Bearer signed") none).1
unfolding get_token get truthy lookup get_key get_cache collect_keys Dict.get Dict.set
get_token-IsVerified_example =
    get_token-IsVerified jose defaults 9_000_000_000 (some key_set) "Bearer signed" payload none
      refl refl
