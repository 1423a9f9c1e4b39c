-- ===== src/Jwks/Refresh.antt =====
-- What the key cache answers, and what a failed refresh does to it.
use rpi_io_t_server_project.Base.{
  ◌+◌, ◌*◌, ◌≤◌, ◌≡◌, Option, none, some, arith, string_eq, if◌then◌else◌,
}
use rpi_io_t_server_project.Base.Exec.{Result, ok}
use rpi_io_t_server_project.Json.{Json}
use rpi_io_t_server_project.Jwks.{
  UnixTime, JwksCache, is_stale, fetch, find_key, refreshed, get_key,
}

module _ (now : UnixTime) (response : Option Json) (kid : Json) (c : JwksCache) where
  abbrev outcome : Result (Option Json)
  outcome = (get_key now response kid c).0

  abbrev left : JwksCache
  left = (get_key now response kid c).1

  -- If the key cache returns a key, the cache that it leaves has this key under the kid, and its
  -- last successful fetch lies within the time to live.
  pub get_key_sound :
      (key : Json)
      → outcome ≡ ok (some key)
      → (find_key kid left.keys ≡ ok (some key)) × (now ≤ left.fetched_at + left.ttl * 1_000_000)
  unfolding get_key refreshed is_stale fetch
  get_key_sound key h = ground arith

  -- If the request for the keys fails, the cache stays as it was, and the answer is no key if it
  -- is stale and otherwise what it has under the kid.
  pub get_key_offline :
      response ≡ none
      → (left ≡ c) × (outcome ≡ (if is_stale now c then ok none else find_key kid c.keys))
  unfolding get_key refreshed fetch
  get_key_offline e = ground arith
