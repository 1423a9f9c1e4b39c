-- ===== src/Auth.antt =====
-- server/app/auth.py: from the Authorization header to the user. `python-jose` is a parameter.
pub mod Verified
use rpi_io_t_server_project.Base.{
  ℕ, String, Bool, true, false, not, ◌==◌, string_eq, any, Option, none, some, List, [], ◌∷◌,
  select, if◌then◌else◌,
}
use Prim.Native.Char.{code}
use text.Mathlib.Text.{starts_with}
use rpi_io_t_server_project.Base.Exec.{
  Exec, Result, ok, raised, http, data_error, ◌>>=◌, ◌>>◌, pure, raise, lift,
}
use rpi_io_t_server_project.Config.{Settings, jwks_url}
use rpi_io_t_server_project.Json.{Json, Fields, obj, end, str, arr, nil, get, get_or, truthy}
use rpi_io_t_server_project.Jwks.{JwksCache, UnixTime, new_cache, get_key}
use rpi_io_t_server_project.Models.{Db, User}
use rpi_io_t_server_project.Session.{Session, read, scalar_one_or_none}

-- The calls of the library, `none` for a `JWTError`.
pub record Jose : Type 0 where
  -- `jwt.get_unverified_header(token)`
  pub unverified_header : String → Option Json
  -- `jwt.decode` with every check off
  pub decode_unverified : String → Option Json
  -- `jwt.decode` with a key, the algorithms, the audience and the issuer, and every check on
  pub decode : String → Json → List String → String → String → Option Json
  -- `str.strip()`
  pub strip : String → String

-- The fields of `TokenPayload`; the roles are read and used nowhere.
pub record TokenPayload : Type 0 where
  pub raw : Json
  pub sub : Json
  pub email : Json
  pub preferred_username : Json
  pub realm_roles : Json

-- `raw.get("realm_access") or {}`
abbrev or_empty : Json → Json
or_empty v = if truthy v then v else obj end

-- `authorization.removeprefix("Bearer ")`: seven characters.
unfoldable pub drop_seven : String → String
drop_seven
      (String.◌∷◌ a (
        String.◌∷◌ b
          (String.◌∷◌ c (String.◌∷◌ d (String.◌∷◌ e (String.◌∷◌ f (String.◌∷◌ g s))))))) =
    s
drop_seven s = s

-- The process-wide singleton of jwks.py: the first call makes it.
unfoldable pub get_cache : String → ℕ → ℕ → Option JwksCache → JwksCache
get_cache url ttl timeout none = new_cache url ttl timeout
get_cache url ttl timeout (some c) = c

module _ (j : Jose) (settings : Settings) (now : UnixTime) (response : Option Json) where
  abbrev pub or_401 : Option Json → Result Json
  or_401 none = raised (http 401)
  or_401 (some v) = ok v

  -- The production path, once the header has named a key.
  unfoldable pub verify : String → Json → Exec (Option JwksCache) Json
  verify token kid s =
      let cache =
        get_cache (jwks_url settings) settings.kc_jwks_cache_ttl_sec
          settings.kc_jwks_fetch_timeout_sec s in
      let (r, cache') = get_key now response kid cache in
      (
        elim r [
          | raised e ↦ raised e
          | ok none ↦ raised (http 401)
          | ok (some key) ↦ or_401 (
              j.decode token key settings.kc_allowed_algorithms settings.kc_audience
                settings.kc_issuer)
        ],
        some cache',
      )

  -- `_decode_jwt`
  unfoldable pub decode_jwt : String → Exec (Option JwksCache) Json
  unfolding verify
  decode_jwt token =
      if not settings.kc_verify_signature then lift (or_401 (j.decode_unverified token)) else do
        header ← lift (or_401 (j.unverified_header token))
        kid ← lift (get header "kid")
        if not (truthy kid) then raise (http 401) else verify token kid

  -- `TokenPayload(raw)`
  unfoldable pub payload_of : Json → Exec (Option JwksCache) TokenPayload
  payload_of raw = do
    sub ← lift (get_or raw "sub" (str ""))
    email ← lift (get_or raw "email" (str ""))
    name ← lift (get_or raw "preferred_username" (str ""))
    access ← lift (get raw "realm_access")
    roles ← lift (get_or (or_empty access) "roles" (arr nil))
    pure (record {
      raw = raw;
      sub = sub;
      email = email;
      preferred_username = name;
      realm_roles = roles;
    })

  -- `get_token`
  unfoldable pub get_token : Option String → Exec (Option JwksCache) TokenPayload
  unfolding decode_jwt payload_of drop_seven
  get_token none = raise (http 401)
  get_token (some authorization) =
      if not (starts_with authorization "Bearer ")
      then raise (http 401)
      else do raw ← decode_jwt (j.strip (drop_seven authorization)); payload_of raw

-- The query of `get_current_user`: the driver refuses a subject that is no text.
unfoldable pub user_by_sub : Json → Exec Session User
user_by_sub (str sub) = do
  rows ← read (λ db. select (λ (u : User). u.keycloak_user_id == sub) db.users)
  row ← lift (scalar_one_or_none rows)
  elim row [ none ↦ raise (http 403) | some user ↦ pure user ]
user_by_sub _ = raise data_error

-- `get_current_user`: no user is made on the way.
unfoldable pub get_current_user : TokenPayload → Exec Session User
unfolding user_by_sub
get_current_user token = if not (truthy token.sub) then raise (http 401) else user_by_sub token.sub
