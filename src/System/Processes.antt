-- ===== src/System/Processes.antt =====
-- The worker's dispatch and the scheduler's jobs, by the statements that they write.
use rpi_io_t_server_project.Base.{
  ℕ, ◌≡◌, String, Bool, true, false, Option, none, some, List, [], ◌∷◌, any, arith, ◌==◌, pair_eq,
  nat_eq, string_eq, if◌then◌else◌,
}
use rpi_io_t_server_project.Base.Exec.{Exec, Result, raised, ok, continue, pure}
use rpi_io_t_server_project.Config.{Settings}
use rpi_io_t_server_project.Json.{Json}
use rpi_io_t_server_project.Models.{Db}
use rpi_io_t_server_project.Platform.{Platform, Uuid, Time, Loaded, loaded, bad_json, bad_unicode}
use rpi_io_t_server_project.Session.{Session, open_session, in_session}
use rpi_io_t_server_project.Worker.Lookups.{Worker}
use rpi_io_t_server_project.Worker.Telemetry.{on_session}
use rpi_io_t_server_project.Worker.Dispatch.{
  Message, Outcome, handled, done, route, deliver, resolved, dispatch, consume_one,
}
use rpi_io_t_server_project.Scheduler.Offline
use rpi_io_t_server_project.Scheduler.Timeout
use rpi_io_t_server_project.Scheduler.Partitions
use rpi_io_t_server_project.Scheduler.Partitions.{
  create_partition, ensure, wanted, lookahead_months,
}
use rpi_io_t_server_project.System.Writes
use rpi_io_t_server_project.System.Writes.{Write, IsClosed}
use rpi_io_t_server_project.System.Keeps.{Keeps-bind, Good, KeepsDb, itself}
use rpi_io_t_server_project.System.Messages.{
  KeepsWorker, gateway_lookup-KeepsWorker, telemetry-KeepsWorker, heartbeat-KeepsDb, state-KeepsDb,
  response-KeepsDb,
}

module _ (P : Db → Type 0) (closed : IsClosed P) where
  abbrev Held : {A : Type 0} → Exec Worker A → Type 0
  Held m = KeepsWorker P closed m

  on_session-KeepsWorker : {A : Type 0} (m : Exec Session A) → KeepsDb P m → Held (on_session m)
  on_session-KeepsWorker m h = record { at = λ w good. h.at w.session good }

  done-Good :
      {A : Type 0} (r : Result A) (w : Worker)
      → Good P w.session
      → Good P (continue r (λ _. pure handled) w).1.session
  done-Good (ok a) w good = good
  done-Good (raised e) w good = good

  done-KeepsWorker : {A : Type 0} (m : Exec Worker A) → Held m → Held (done m)
  done-KeepsWorker m h = record { at = λ w good. done-Good (m w).0 (m w).1 (h.at w good) }

  pure-KeepsWorker : (o : Outcome) → Held (pure o)
  pure-KeepsWorker o = record { at = λ w good. good }

  if-KeepsWorker :
      (b : Bool) {m n : Exec Worker Outcome} → Held m → Held n → Held (if b then m else n)
  if-KeepsWorker true h k = h
  if-KeepsWorker false h k = k

  module _ (p : Platform) where
    route-KeepsWorker :
        (kind : String) (g : Uuid) (body : Json) (m : Message) → Held (route p kind g body m)
    unfolding route
    route-KeepsWorker kind g body m =
        if-KeepsWorker _ (done-KeepsWorker _ (telemetry-KeepsWorker P closed p m.now g body)) (
          if-KeepsWorker _
            (done-KeepsWorker _ (on_session-KeepsWorker _ (state-KeepsDb P closed p m.now g body)))
            (if-KeepsWorker _
              (done-KeepsWorker _
                (on_session-KeepsWorker _ (heartbeat-KeepsDb P closed p m.now g body)))
              (if-KeepsWorker _
                (done-KeepsWorker _
                  (on_session-KeepsWorker _ (response-KeepsDb P closed p m.now g body)))
                (if-KeepsWorker _ (pure-KeepsWorker _) (pure-KeepsWorker _)))))

    deliver-KeepsWorker :
        (kind : String) (g : Uuid) (m : Message) (l : Loaded) → Held (deliver p kind g m l)
    unfolding deliver
    deliver-KeepsWorker kind g m (loaded body) = route-KeepsWorker kind g body m
    deliver-KeepsWorker kind g m bad_json = pure-KeepsWorker _
    deliver-KeepsWorker kind g m bad_unicode = record { at = λ w good. good }

    resolved-KeepsWorker :
        (kind : String) (m : Message) (o : Option Uuid) → Held (resolved p kind m o)
    unfolding resolved
    resolved-KeepsWorker kind m none = pure-KeepsWorker _
    resolved-KeepsWorker kind m (some g) = deliver-KeepsWorker kind g m (p.loads m.payload)

    dispatch-KeepsWorker : (m : Message) → Held (dispatch p m)
    unfolding dispatch
    dispatch-KeepsWorker m = record {
      at = λ w good. grind (
        arith,
        λ (serial : String). (gateway_lookup-KeepsWorker P closed p serial).at,
        λ (kind : String) (o : Option Uuid). (resolved-KeepsWorker kind m o).at,
      );
    }

    -- A message of the broker.
    pub consume_one_keeps :
        (w : Worker) (m : Message) → P w.session.committed → P (consume_one p w m).session.committed
    unfolding consume_one
    consume_one_keeps w m h =
        ((dispatch-KeepsWorker m).at (record w { session = open_session w.session.committed })
          (h, h)).0

  module _ (settings : Settings) where
    pub offline-KeepsDb : (now : Time) → KeepsDb P (Offline.run settings now)
    unfolding Offline.run
    offline-KeepsDb now = record {
      at = λ s good.
          grind (arith, λ (d : Db) (t : Time). closed.keep d _ (Writes.offline_gateways d t));
    }

  pub timeout-KeepsDb : (now : Time) → KeepsDb P (Timeout.run now)
  timeout-KeepsDb now = record {
    at = λ s good.
        let h = closed.keep s.working _ (Writes.timeout_commands s.working now) good.1 in
        unfold Timeout.run in (h, h);
  }

  module _ (p : Platform) where
    create_partition-KeepsDb : (part : (ℕ × ℕ) × (ℕ × ℕ)) → KeepsDb P (create_partition p part)
    unfolding create_partition
    create_partition-KeepsDb part = record {
      at = λ s good. grind (
        arith,
        λ (d : Db) (h : any (λ (q : (ℕ × ℕ) × (ℕ × ℕ)). q.0 == part.0) d.partitions ≡ false).
            closed.keep d _ (Writes.add_partition d part h),
      );
    }

    ensure-KeepsDb : (parts : List ((ℕ × ℕ) × (ℕ × ℕ))) → KeepsDb P (ensure p parts)
    unfolding ensure
    ensure-KeepsDb [] = record { at = λ s good. good }
    ensure-KeepsDb (part ∷ parts) =
        Keeps-bind itself P (create_partition-KeepsDb part) (λ _. ensure-KeepsDb parts)

    pub partitions-KeepsDb : (now : Time) → KeepsDb P (Partitions.run p now)
    unfolding Partitions.run
    partitions-KeepsDb now = record {
      at =
          λ s good. grind (arith, (ensure-KeepsDb (wanted lookahead_months (p.year_month now))).at);
    }

  -- A session that is closed has committed only what was kept.
  pub in_session_keeps :
      {A : Type 0} (m : Exec Session A) (d : Db) → KeepsDb P m → P d → P (in_session m d).1
  unfolding in_session
  in_session_keeps m d h good = (h.at (open_session d) (good, good)).0
