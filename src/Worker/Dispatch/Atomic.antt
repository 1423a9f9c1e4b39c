-- ===== src/Worker/Dispatch/Atomic.antt =====
-- What a message that is dropped, or whose handler raises, does to the database.
use rpi_io_t_server_project.Base.{
  String, ◌≡◌, ◌≢◌, refl, Bool, true, false, Option, none, some, if◌then◌else◌, arith,
}
use rpi_io_t_server_project.Base.Exec.{Exec, Exc, Result, ok, raised, continue, pure}
use rpi_io_t_server_project.Json.{Json}
use rpi_io_t_server_project.Platform.{Platform, Uuid, Time, Loaded, loaded, bad_json, bad_unicode}
use rpi_io_t_server_project.Session.{Session}
use rpi_io_t_server_project.Worker.Lookups.{Worker, gateway_uuid_by_serial}
use rpi_io_t_server_project.Worker.Telemetry.Atomic
use rpi_io_t_server_project.Worker.Heartbeat
use rpi_io_t_server_project.Worker.State
use rpi_io_t_server_project.Worker.State.Effect.{reported_reads}
use rpi_io_t_server_project.Worker.CommandResponse
use rpi_io_t_server_project.Worker.Dispatch.{
  Message, Outcome, handled, unhandled_kind, unknown_kind, not_json, unknown_serial, done, route,
  deliver, resolved, dispatch,
}

module _ (p : Platform) (now : Time) where
  heartbeat_atomic :
      (g : Uuid) (body : Json) (s : Session) {e : Exc}
      → (Heartbeat.handle p now g body s).0 ≡ raised e
      → (Heartbeat.handle p now g body s).1.committed ≡ s.committed
  unfolding Heartbeat.handle
  heartbeat_atomic g body s h = ground arith

  state_atomic :
      (g : Uuid) (body : Json) (s : Session) {e : Exc}
      → (State.handle p now g body s).0 ≡ raised e
      → (State.handle p now g body s).1.committed ≡ s.committed
  unfolding State.handle
  state_atomic g body s h = grind (arith, reported_reads)

  response_atomic :
      (g : Uuid) (body : Json) (s : Session) {e : Exc}
      → (CommandResponse.handle p now g body s).0 ≡ raised e
      → (CommandResponse.handle p now g body s).1.committed ≡ s.committed
  unfolding CommandResponse.handle
  response_atomic g body s h = ground arith

-- What is not reported as handled has committed nothing.
record IsSafe (m : Exec Worker Outcome) : Type 0 where
  at : (w : Worker) → (m w).0 ≢ ok handled → (m w).1.session.committed ≡ w.session.committed

IsSafe-pure : (o : Outcome) → IsSafe (pure o)
IsSafe-pure o = record { at = λ w h. refl }

IsSafe-if :
    (b : Bool) {m n : Exec Worker Outcome} → IsSafe m → IsSafe n → IsSafe (if b then m else n)
IsSafe-if true hm hn = hm
IsSafe-if false hm hn = hn

done_at :
    {A : Type 0} (r : Result A × Worker) (w : Worker)
    → ((e : Exc) → r.0 ≡ raised e → r.1.session.committed ≡ w.session.committed)
    → (continue r.0 (λ _. pure handled) r.1).0 ≢ ok handled
    → (continue r.0 (λ _. pure handled) r.1).1.session.committed ≡ w.session.committed
done_at (ok a, w') w h ne = absurd (ne refl)
done_at (raised e, w') w h ne = h e refl

IsSafe-done :
    {A : Type 0} (m : Exec Worker A)
    → ((w : Worker) (e : Exc)
        → (m w).0 ≡ raised e
        → (m w).1.session.committed ≡ w.session.committed)
    → IsSafe (done m)
IsSafe-done m h = record { at = λ w. done_at (m w) w (h w) }

module _ (p : Platform) where
  route-IsSafe :
      (kind : String) (g : Uuid) (body : Json) (m : Message) → IsSafe (route p kind g body m)
  unfolding route
  route-IsSafe kind g body m =
      IsSafe-if _ (IsSafe-done _ (λ w e. Atomic.handle_atomic p m.now g body w)) (
        IsSafe-if _ (IsSafe-done _ (λ w e. state_atomic p m.now g body w.session)) (
          IsSafe-if _ (IsSafe-done _ (λ w e. heartbeat_atomic p m.now g body w.session)) (
            IsSafe-if _ (IsSafe-done _ (λ w e. response_atomic p m.now g body w.session))
              (IsSafe-if _ (IsSafe-pure unhandled_kind) (IsSafe-pure unknown_kind)))))

  loaded-IsSafe :
      (kind : String) (g : Uuid) (l : Loaded) (m : Message) → IsSafe (deliver p kind g m l)
  unfolding deliver
  loaded-IsSafe kind g (loaded body) m = route-IsSafe kind g body m
  loaded-IsSafe kind g bad_json m = IsSafe-pure not_json
  loaded-IsSafe kind g bad_unicode m = record { at = λ w h. refl }

  resolved-IsSafe :
      (kind : String) (m : Message) (found : Option Uuid) → IsSafe (resolved p kind m found)
  unfolding resolved
  resolved-IsSafe kind m none = IsSafe-pure unknown_serial
  resolved-IsSafe kind m (some g) = loaded-IsSafe kind g (p.loads m.payload) m

  -- For every message, platform and state of the worker: if `dispatch` does not report the message
  -- as handled (it is dropped, or a handler raises), the committed database is what it was before.
  pub dispatch_atomic :
      (m : Message) (w : Worker)
      → (dispatch p m w).0 ≢ ok handled
      → (dispatch p m w).1.session.committed ≡ w.session.committed
  unfolding dispatch gateway_uuid_by_serial
  dispatch_atomic m w h =
      grind (arith, λ (kind : String) (f : Option Uuid). (resolved-IsSafe kind m f).at)
