-- ===== src/Worker/Lookups/Fresh.antt =====
-- The lookups of the worker against a database that changes behind their caches.
use rpi_io_t_server_project.Base.{◌≡◌, ◌≤◌, ◌+◌, String, Option, nat_eq, string_eq, pair_eq}
use rpi_io_t_server_project.Base.Dict
use rpi_io_t_server_project.Base.Exec.{ok}
use rpi_io_t_server_project.Platform.{Uuid}
use rpi_io_t_server_project.Worker.Lookups.{
  Instant, Worker, query_gateway, query_sensor_channel, gateway_uuid_by_serial,
  sensor_channel_uuid_by_slug,
}
use rpi_io_t_server_project.Worker.Lookups.Staleness.{
  storing, IsHonest, IsAnswer, through_cache-IsAnswer,
}

-- `truth` is what the database says of a serial at each instant.
module _ (truth : Instant → String → Option Uuid) (delay : Instant) where
  -- Suppose that every entry of the cache of gateways was true at an instant in the past and
  -- expires at most sixty seconds and `delay` after it, that the query answers with the truth of
  -- the instant `asked`, and that the reading of the clock that follows the query is not before
  -- the first one and lies between `asked` and `delay` after `asked`. Then the lookup of a serial
  -- returns what was true at an instant at most sixty seconds and `delay` before its first reading
  -- of the clock and not after that later reading, and by then the cache has the property again.
  pub gateway_uuid_by_serial-IsAnswer :
      (now asked : Instant) (serial : String) (w : Worker)
      → let end = storing w.readings (Dict.get serial w.gateway_cache) in
        now ≤ w.readings 0
        → w.readings 0 ≤ end
        → asked ≤ end
        → end ≤ asked + delay
        → IsHonest truth delay now w.gateway_cache
        → query_gateway serial w.session.working ≡ ok (truth asked serial)
        → let (r, w') = gateway_uuid_by_serial serial w in
          IsAnswer truth delay (w.readings 0) end serial r w'.gateway_cache
  unfolding gateway_uuid_by_serial
  gateway_uuid_by_serial-IsAnswer now asked serial w past first after soon honest queried =
      rw queried (
        through_cache-IsAnswer truth delay now asked w.readings serial w.gateway_cache past first
          after soon honest)

module _ (truth : Instant → Uuid × String → Option Uuid) (delay : Instant) where
  -- Suppose that every entry of the cache of sensor channels was true at an instant in the past
  -- and expires at most sixty seconds and `delay` after it, that the query answers with the truth
  -- of the instant `asked`, and that the reading of the clock that follows the query is not before
  -- the first one and lies between `asked` and `delay` after `asked`. Then the lookup of a
  -- gateway's slug returns what was true at an instant at most sixty seconds and `delay` before
  -- its first reading of the clock and not after that later reading, and by then the cache has the
  -- property again.
  pub sensor_channel_uuid_by_slug-IsAnswer :
      (now asked : Instant) (gateway_id : Uuid) (slug : String) (w : Worker)
      → let end = storing w.readings (Dict.get (gateway_id, slug) w.sensor_channel_cache) in
        now ≤ w.readings 0
        → w.readings 0 ≤ end
        → asked ≤ end
        → end ≤ asked + delay
        → IsHonest truth delay now w.sensor_channel_cache
        → query_sensor_channel gateway_id slug w.session.working
          ≡ ok (truth asked (gateway_id, slug))
        → let (r, w') = sensor_channel_uuid_by_slug gateway_id slug w in
          IsAnswer truth delay (w.readings 0) end (gateway_id, slug) r w'.sensor_channel_cache
  unfolding sensor_channel_uuid_by_slug
  sensor_channel_uuid_by_slug-IsAnswer now asked gateway_id slug w past first after soon honest
        queried =
      rw queried (
        through_cache-IsAnswer truth delay now asked w.readings (gateway_id, slug)
          w.sensor_channel_cache past first after soon honest)
