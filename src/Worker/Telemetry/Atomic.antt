-- ===== src/Worker/Telemetry/Atomic.antt =====
-- What the telemetry handler has committed when it raises.
use rpi_io_t_server_project.Base.{ℕ, ◌+◌, ◌≡◌, refl, ◌∙◌, Option, List, [], ◌∷◌, arith}
use rpi_io_t_server_project.Base.Exec.{Exec, Exc, Result, ok, raised, continue}
use rpi_io_t_server_project.Json.{Json}
use rpi_io_t_server_project.Models.{Gateway}
use rpi_io_t_server_project.Platform.{Platform, Uuid, Time}
use rpi_io_t_server_project.Session.{Session}
use rpi_io_t_server_project.Worker.Lookups.{Worker, sensor_channel_uuid_by_slug}
use rpi_io_t_server_project.Worker.Telemetry.{
  measure, store_known, store_value, store_values, handle,
}

module _ (p : Platform) where
  measure_quiet :
      (k n : Option ℕ) (channel : Uuid) (key v : Json) (s : Session)
      → (measure p k n channel key v s).1 ≡ s
  unfolding measure
  measure_quiet k n channel key v s = ground arith

  store_known_quiet :
      (gw : Gateway) (gateway_id : Uuid) (ts : Time) (channel : Uuid) (v : Json) (s : Session)
      → (store_known p gw gateway_id ts channel v s).1.committed ≡ s.committed
  unfolding store_known
  store_known_quiet gw gateway_id ts channel v s = grind (arith, measure_quiet)

continue_quiet :
    {A B : Type 0} (r : Result A) (w : Worker) (f : A → Exec Worker B)
    → ((a : A) → (f a w).1.session.committed ≡ w.session.committed)
    → (continue r f w).1.session.committed ≡ w.session.committed
continue_quiet (ok a) w f h = h a
continue_quiet (raised e) w f h = refl

module _ (p : Platform) where
  store_value_quiet :
      (gw : Gateway) (gateway_id : Uuid) (ts : Time) (v : Json) (w : Worker)
      → (store_value p gw gateway_id ts v w).1.session.committed ≡ w.session.committed
  unfolding store_value sensor_channel_uuid_by_slug
  store_value_quiet gw gateway_id ts v w = grind (arith, store_known_quiet)

  store_values_quiet :
      (gw : Gateway) (gateway_id : Uuid) (ts : Time) (vs : List Json) (n : ℕ) (w : Worker)
      → (store_values p gw gateway_id ts vs n w).1.session.committed ≡ w.session.committed
  unfolding store_values
  store_values_quiet gw gateway_id ts [] n w = refl
  store_values_quiet gw gateway_id ts (v ∷ vs) n w =
      let (r, w') = store_value p gw gateway_id ts v w in
      continue_quiet r w' (λ k. store_values p gw gateway_id ts vs (n + k))
        (λ k. store_values_quiet gw gateway_id ts vs (n + k) w')
      ∙ store_value_quiet gw gateway_id ts v w

module _ (p : Platform) (now : Time) where
  pub handle_atomic :
      (gateway_id : Uuid) (body : Json) (w : Worker) {e : Exc}
      → (handle p now gateway_id body w).0 ≡ raised e
      → (handle p now gateway_id body w).1.session.committed ≡ w.session.committed
  unfolding handle
  handle_atomic gateway_id body w h = grind (arith, store_values_quiet)
