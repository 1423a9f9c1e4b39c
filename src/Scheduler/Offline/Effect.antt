-- ===== src/Scheduler/Offline/Effect.antt =====
-- What a run of the offline detector leaves behind.
use rpi_io_t_server_project.Base.{
  ℕ, ◌≡◌, ◌≢◌, refl, ◌∙◌, true, false, Option, none, some, arith, ◌==◌, nat_eq, string_eq,
  if◌then◌else◌, eq_iff, ◌*◌, ◌-◌, ◌≤◌, ◌⊎◌, ◌<◌, ◌+◌,
}
use rpi_io_t_server_project.Base.Unique.{find?-update}
use rpi_io_t_server_project.Base.Exec.{ok}
use rpi_io_t_server_project.Config.{Settings}
use rpi_io_t_server_project.Models.{Db, Gateway}
use rpi_io_t_server_project.Platform.{Uuid, Time}
use rpi_io_t_server_project.Session.{in_session}
use rpi_io_t_server_project.Worker.Heartbeat.{get_gateway}
use rpi_io_t_server_project.Scheduler.Offline.{second, before, is_stale, offline, mark_offline, run}

before_ok : (now : Time) (sec : ℕ) → sec * second ≤ now → before now sec ≡ ok (now - sec * second)
unfolding before
before_ok now sec h = ground arith

run_lem :
    (settings : Settings) (now : Time) (db : Db)
    → settings.offline_threshold_sec * second ≤ now
    → in_session (run settings now) db
      ≡ (ok tt, mark_offline (now - settings.offline_threshold_sec * second) db)
unfolding run in_session
run_lem settings now db h = rw (before_ok now settings.offline_threshold_sec h)

-- What the detector does to one gateway.
abbrev pub judged : Time → Option Gateway → Option Gateway
judged t none = none
judged t (some g) = some (if is_stale t g then offline g else g)

judged_find :
    (t : Time) (o : Option Gateway)
    → elim o [ none ↦ none | some x ↦ some (if is_stale t x then offline x else x) ] ≡ judged t o
judged_find t none = refl
judged_find t (some g) = refl

module _ (settings : Settings) (now : Time) (db : Db) where
  abbrev threshold : Time
  threshold = now - settings.offline_threshold_sec * second

  abbrev after : Db
  after = (in_session (run settings now) db).1

  run_effect :
      settings.offline_threshold_sec * second ≤ now
      → (k : Uuid) → get_gateway k after ≡ judged threshold (get_gateway k db)
  unfolding get_gateway mark_offline
  run_effect h k =
      rw (after, run_lem settings now db h)
        (find?-update (λ (g : Gateway). g.id == k) (is_stale threshold) offline db.gateways
            (λ g. refl)
          ∙ judged_find threshold (get_gateway k db))

-- A gateway was not seen for more than the threshold.
abbrev pub Unseen : ℕ → Time → Option Time → Type 0
Unseen limit now none = Unit
Unseen limit now (some t) = t + limit * second < now

-- A gateway was seen within the threshold.
abbrev pub SeenWithin : ℕ → Time → Option Time → Type 0
SeenWithin limit now none = ⊥
SeenWithin limit now (some t) = now ≤ t + limit * second

stale :
    (limit : ℕ) (now : Time) (g : Gateway)
    → g.status ≡ "online"
    → (o : Option Time) → g.last_seen_at ≡ o
    → Unseen limit now o
    → is_stale (now - limit * second) g ≡ true
unfolding is_stale
stale limit now g online none e u = ground (arith, eq_iff g.status "online")
stale limit now g online (some t) e u = ground (arith, eq_iff g.status "online")

fresh :
    (limit : ℕ) (now : Time) (g : Gateway) (o : Option Time)
    → g.last_seen_at ≡ o
    → (g.status ≢ "online") ⊎ SeenWithin limit now o
    → is_stale (now - limit * second) g ≡ false
unfolding is_stale
fresh limit now g none e u = ground (arith, eq_iff g.status "online")
fresh limit now g (some t) e u = ground (arith, eq_iff g.status "online")

module _ (settings : Settings) (now : Time) (k : Uuid) (g : Gateway) (db : Db) where
  -- If the threshold does not reach back before the first instant of the calendar, a gateway that
  -- is online and was not seen for longer than the threshold, or never, is offline after a run of
  -- the offline detector, with all other columns as they were.
  pub run_marks_offline :
      settings.offline_threshold_sec * second ≤ now
      → get_gateway k db ≡ some g
      → g.status ≡ "online"
      → Unseen settings.offline_threshold_sec now g.last_seen_at
      → get_gateway k (in_session (run settings now) db).1 ≡ some (record g { status = "offline" })
  run_marks_offline h found online unseen =
      run_effect settings now db h k
      ∙ rw (found, stale settings.offline_threshold_sec now g online g.last_seen_at refl unseen)

  -- If the threshold does not reach back before the first instant of the calendar, a run of the
  -- offline detector leaves every gateway as it was that is not online, or that was seen within
  -- the threshold.
  pub run_keeps_seen :
      settings.offline_threshold_sec * second ≤ now
      → get_gateway k db ≡ some g
      → (g.status ≢ "online") ⊎ SeenWithin settings.offline_threshold_sec now g.last_seen_at
      → get_gateway k (in_session (run settings now) db).1 ≡ some g
  run_keeps_seen h found keep =
      run_effect settings now db h k
      ∙ rw (found, fresh settings.offline_threshold_sec now g g.last_seen_at refl keep)
