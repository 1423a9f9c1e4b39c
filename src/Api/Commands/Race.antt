-- ===== src/Api/Commands/Race.antt =====
-- The second transaction of `issue_command` against what other processes do before it.
use rpi_io_t_server_project.Base.{
  String, ◌≡◌, refl, Bool, true, some, List, any, find?, ◌==◌, string_eq, arith, ◌<◌, inr,
  find?-holds, [], ◌∷◌,
}
use rpi_io_t_server_project.Base.Unique.{find?-update_on}
use rpi_io_t_server_project.Base.Exec.{ok}
use rpi_io_t_server_project.Models.{Db, Command}
use rpi_io_t_server_project.Platform.{Time}
use rpi_io_t_server_project.Session.{Session, in_session}
use rpi_io_t_server_project.Worker.CommandResponse.{get_command, update_command}
use rpi_io_t_server_project.Scheduler.Timeout
use rpi_io_t_server_project.Scheduler.Timeout.Effect
use rpi_io_t_server_project.Api.Commands.{Backend, CommandMessage, mark_published, publish}

-- A row that a search by its key finds shows that some row has the key.
found_any :
    (p : Command → Bool) (cs : List Command) (c : Command) → find? p cs ≡ some c → any p cs ≡ true
unfolding find? any
found_any p [] c h = cc
found_any p (d ∷ cs) c h = ground (arith, found_any p cs c)

abbrev pub as_published : Command → Command
as_published c = record c { status = "published" }

mark_published_lem :
    (others : Db → Db) (k : String) (s : Session) (c : Command)
    → get_command k (others s.committed) ≡ some c
    → (mark_published others k s).0 ≡ ok tt
unfolding mark_published get_command
mark_published_lem others k s c h =
    rw (found_any (λ (d : Command). d.id == k) (others s.committed).commands c h)

marked_row :
    (others : Db → Db) (k : String) (s : Session) (c : Command)
    → get_command k (others s.committed) ≡ some c
    → get_command k (mark_published others k s).1.committed ≡ some (as_published c)
unfolding mark_published get_command update_command
marked_row others k s c h =
    let q = λ (d : Command). d.id == k in
    rw (found_any q (others s.committed).commands c h) (
      find?-update_on q q as_published (others s.committed).commands c (λ d. refl) h
        (find?-holds q (others s.committed).commands c h))

module _ (others : Db → Db) (cmd : Command) (message : CommandMessage) (b : Backend)
    (c : Command) where
  -- If the other processes have left a row `c` under the id of a delivered command before the
  -- second transaction of `issue_command`, the backend answers with the command as published, and
  -- the row is `c` with the status `published`, whatever its status was.
  pub publish_overwrites :
      get_command cmd.id (others b.session.committed) ≡ some c
      → let (r, b') = publish others true cmd message b in
        (r ≡ ok (as_published cmd))
        × (get_command cmd.id b'.session.committed ≡ some (as_published c))
  unfolding publish
  publish_overwrites h =
      (rw (mark_published_lem others cmd.id b.session c h), marked_row others cmd.id b.session c h)

  -- If the other processes have left a row `c` under the id of a delivered command before the
  -- second transaction of `issue_command`, with any status, then a run of the timeout job after
  -- the expiry of that row sets the row to `timeout`, and every other column but the time of
  -- completion stays.
  pub answered_times_out :
      (later : Time)
      → get_command cmd.id (others b.session.committed) ≡ some c
      → c.expires_at < later
      → let b' = (publish others true cmd message b).1 in
        get_command cmd.id (in_session (Timeout.run later) b'.session.committed).1
        ≡ some (record c { status = "timeout"; completed_at = some later })
  answered_times_out later h expired =
      Effect.run_times_out later cmd.id (as_published c) _ (publish_overwrites h).1 (inr refl)
        expired
