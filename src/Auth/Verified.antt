-- ===== src/Auth/Verified.antt =====
-- Whose claims the backend believes.
use rpi_io_t_server_project.Base.{
  String, ◌≡◌, ◌≤◌, ◌+◌, ◌*◌, refl, true, string_eq, Option, none, some, Option-cases, Bool-cases,
  inl, inr, arith,
}
use rpi_io_t_server_project.Base.Exec.{Result, ok, raised, http}
use rpi_io_t_server_project.Base.Outcome.{Result-cases}
use text.Mathlib.Text.{starts_with}
use rpi_io_t_server_project.Config.{Settings, jwks_url}
use rpi_io_t_server_project.Json.{Json, get, truthy}
use rpi_io_t_server_project.Jwks.{JwksCache, UnixTime, get_key, find_key}
use rpi_io_t_server_project.Jwks.Refresh.{get_key_sound}
use rpi_io_t_server_project.Auth.{
  Jose, or_401, TokenPayload, drop_seven, verify, decode_jwt, payload_of, get_token, get_cache,
}

module _ (j : Jose) (settings : Settings) (now : UnixTime) (response : Option Json) where
  -- The token names a key, the cache that is left holds a key under this name and is not stale, and
  -- `jwt.decode` accepts the token with this key, for the audience and the issuer of the settings.
  pub record IsVerified (token : String) (raw : Json) (after : Option JwksCache) : Type 0 where
    pub header : Json
    pub kid : Json
    pub key : Json
    pub cache : JwksCache
    pub headed : j.unverified_header token ≡ some header
    pub named : get header "kid" ≡ ok kid
    pub left : after ≡ some cache
    pub held : find_key kid cache.keys ≡ ok (some key)
    pub live : now ≤ cache.fetched_at + cache.ttl * 1_000_000
    pub checked :
        j.decode token key settings.kc_allowed_algorithms settings.kc_audience settings.kc_issuer
        ≡ some raw

  keyed :
      (token : String) (raw : Json) (r : Result (Option Json))
      → elim r [
        | raised e ↦ raised e
        | ok none ↦ raised (http 401)
        | ok (some key) ↦ or_401 j settings now response (
            j.decode token key settings.kc_allowed_algorithms settings.kc_audience
              settings.kc_issuer)
      ]
        ≡ ok raw
      → (key : Json) × (r ≡ ok (some key))
        × (j.decode token key settings.kc_allowed_algorithms settings.kc_audience settings.kc_issuer
            ≡ some raw)
  keyed token raw (raised e) h = absurd (ground arith)
  keyed token raw (ok none) h = absurd (ground arith)
  keyed token raw (ok (some key)) h = (key, refl, ground arith)

  verify_sound :
      (token : String) (header kid raw : Json) (s : Option JwksCache)
      → j.unverified_header token ≡ some header
      → get header "kid" ≡ ok kid
      → (verify j settings now response token kid s).0 ≡ ok raw
      → IsVerified token raw (verify j settings now response token kid s).1
  unfolding verify
  verify_sound token header kid raw s headed named h =
      let cache =
        get_cache (jwks_url settings) settings.kc_jwks_cache_ttl_sec
          settings.kc_jwks_fetch_timeout_sec s in
      let (key, got, checked) = keyed token raw _ h in
      let (held, live) = get_key_sound now response kid cache key got in
      record {
        header = header;
        kid = kid;
        key = key;
        cache = (get_key now response kid cache).1;
        headed = headed;
        named = named;
        left = refl;
        held = held;
        live = live;
        checked = checked;
      }

  decode_jwt-verify :
      (token : String) (header kid : Json) (s : Option JwksCache)
      → settings.kc_verify_signature ≡ true
      → j.unverified_header token ≡ some header
      → get header "kid" ≡ ok kid
      → truthy kid ≡ true
      → decode_jwt j settings now response token s ≡ verify j settings now response token kid s
  unfolding decode_jwt
  decode_jwt-verify token header kid s on headed named given = rw (on, headed, named, given)

  -- A key is named whenever a token is accepted.
  decode_jwt_named :
      (token : String) (raw : Json) (s : Option JwksCache)
      → settings.kc_verify_signature ≡ true
      → (decode_jwt j settings now response token s).0 ≡ ok raw
      → (header : Json) × (kid : Json) × (j.unverified_header token ≡ some header)
        × (get header "kid" ≡ ok kid)
        × (truthy kid ≡ true)
  unfolding decode_jwt
  decode_jwt_named token raw s on h = elim (Option-cases (j.unverified_header token)) [
    | inl malformed ↦ absurd (ground arith)
    | inr (header, headed) ↦ elim (Result-cases (get header "kid")) [
      | inl (x, refused) ↦ absurd (ground arith)
      | inr (kid, named) ↦ elim (Bool-cases (truthy kid)) [
        | inl given ↦ (header, kid, headed, named, given)
        | inr missing ↦ absurd (ground arith)
      ]
    ]
  ]

  decode_jwt_sound :
      (token : String) (raw : Json) (s : Option JwksCache)
      → settings.kc_verify_signature ≡ true
      → (decode_jwt j settings now response token s).0 ≡ ok raw
      → IsVerified token raw (decode_jwt j settings now response token s).1
  decode_jwt_sound token raw s on h =
      let (header, kid, headed, named, given) = decode_jwt_named token raw s on h in
      let same = decode_jwt-verify token header kid s on headed named given in
      rw same (verify_sound token header kid raw s headed named (rw same at h))

  payload_raw :
      (raw : Json) (s : Option JwksCache) (token : TokenPayload)
      → (payload_of j settings now response raw s).0 ≡ ok token
      → token.raw ≡ raw
  unfolding payload_of
  payload_raw raw s token h = ground arith

  payload_left :
      (raw : Json) (s : Option JwksCache) → (payload_of j settings now response raw s).1 ≡ s
  unfolding payload_of
  payload_left raw s = ground arith

  -- With signature checks on, for a payload that `get_token` returns for a header: the token is
  -- the text after the header's first seven characters, stripped; its unverified header names a
  -- kid; the key cache that is left behind has a key under that kid and is within its time to
  -- live; and `jwt.decode` accepted the token with that key and the algorithms, audience and
  -- issuer of the settings, and gave the claims of the payload.
  pub get_token-IsVerified :
      (authorization : String) (token : TokenPayload) (s : Option JwksCache)
      → settings.kc_verify_signature ≡ true
      → (get_token j settings now response (some authorization) s).0 ≡ ok token
      → IsVerified
          (j.strip (drop_seven authorization))
          token.raw
          (get_token j settings now response (some authorization) s).1
  unfolding get_token
  get_token-IsVerified authorization token s on h =
      let text = j.strip (drop_seven authorization) in
      let decoded = decode_jwt j settings now response text s in
      elim (Bool-cases (starts_with authorization "Bearer ")) [
        | inr other ↦ absurd (ground arith)
        | inl bearer ↦ elim (Result-cases decoded.0) [
          | inl (x, refused) ↦ absurd (ground arith)
          | inr (raw, done) ↦
              let same : token.raw ≡ raw = payload_raw raw decoded.1 token (ground arith) in
              rw (bearer, done, same, payload_left raw decoded.1)
                (decode_jwt_sound text raw s on done)
        ]
      ]
