-- ===== src/Scheduler/Timeout/Effect.antt =====
-- What a run of the command timeout leaves behind.
use rpi_io_t_server_project.Base.{
  String, ◌≡◌, refl, ◌∙◌, true, false, Option, none, some, ◌==◌, string_eq, if◌then◌else◌, ◌≢◌, ◌⊎◌,
  ◌<◌, ◌≤◌, eq_iff, arith,
}
use rpi_io_t_server_project.Base.Unique.{find?-update}
use rpi_io_t_server_project.Base.Exec.{ok}
use rpi_io_t_server_project.Models.{Db, Command}
use rpi_io_t_server_project.Platform.{Time}
use rpi_io_t_server_project.Session.{in_session}
use rpi_io_t_server_project.Worker.CommandResponse.{get_command}
use rpi_io_t_server_project.Scheduler.Timeout.{is_overdue, timed_out, mark_timeout, run}

run_lem : (now : Time) (db : Db) → in_session (run now) db ≡ (ok tt, mark_timeout now db)
unfolding run in_session
run_lem now db = refl

-- What the job does to one command.
abbrev pub judged : Time → Option Command → Option Command
judged now none = none
judged now (some c) = some (if is_overdue now c then timed_out now c else c)

judged_find :
    (now : Time) (o : Option Command)
    → elim o [ none ↦ none | some x ↦ some (if is_overdue now x then timed_out now x else x) ]
      ≡ judged now o
judged_find now none = refl
judged_find now (some c) = refl

run_effect :
    (now : Time) (db : Db) (k : String)
    → get_command k (in_session (run now) db).1 ≡ judged now (get_command k db)
unfolding get_command mark_timeout
run_effect now db k = rw (run_lem now db) (
    find?-update (λ (c : Command). c.id == k) (is_overdue now) (timed_out now) db.commands
      (λ c. refl)
    ∙ judged_find now (get_command k db))

overdue :
    (now : Time) (c : Command)
    → (c.status ≡ "pending") ⊎ (c.status ≡ "published")
    → c.expires_at < now
    → is_overdue now c ≡ true
unfolding is_overdue
overdue now c w e = ground (arith, eq_iff c.status "pending", eq_iff c.status "published")

not_overdue :
    (now : Time) (c : Command)
    → ((c.status ≢ "pending") × (c.status ≢ "published")) ⊎ (now ≤ c.expires_at)
    → is_overdue now c ≡ false
unfolding is_overdue
not_overdue now c w = ground (arith, eq_iff c.status "pending", eq_iff c.status "published")

-- A command that is pending or published and whose expiry is past is `timeout` after a run of the
-- timeout job, completed at the time of the run, with all other columns as they were.
pub run_times_out :
    (now : Time) (k : String) (c : Command) (db : Db)
    → get_command k db ≡ some c
    → (c.status ≡ "pending") ⊎ (c.status ≡ "published")
    → c.expires_at < now
    → get_command k (in_session (run now) db).1
      ≡ some (record c { status = "timeout"; completed_at = some now })
run_times_out now k c db found waits expired =
    run_effect now db k ∙ rw (found, overdue now c waits expired)

-- A run of the timeout job leaves every command as it was whose status is neither pending nor
-- published, or which has not expired.
pub run_keeps_answered :
    (now : Time) (k : String) (c : Command) (db : Db)
    → get_command k db ≡ some c
    → ((c.status ≢ "pending") × (c.status ≢ "published")) ⊎ (now ≤ c.expires_at)
    → get_command k (in_session (run now) db).1 ≡ some c
run_keeps_answered now k c db found h = run_effect now db k ∙ rw (found, not_overdue now c h)
