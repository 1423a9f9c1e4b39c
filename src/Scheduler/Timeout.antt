-- ===== src/Scheduler/Timeout.antt =====
-- server/scheduler/jobs/command_timeout.py: a command that expired with no answer has timed out.
pub mod Effect
use rpi_io_t_server_project.Base.{String, Bool, ltb, ◌&&◌, ◌||◌, some, ◌==◌, string_eq, update}
use rpi_io_t_server_project.Base.Exec.{Exec, ◌>>=◌, ◌>>◌}
use rpi_io_t_server_project.Models.{Db, Command}
use rpi_io_t_server_project.Platform.{Time}
use rpi_io_t_server_project.Session.{Session, write, commit}

-- The WHERE clause of the job.
unfoldable pub is_overdue : Time → Command → Bool
is_overdue now c = (c.status == "pending" || c.status == "published") && ltb c.expires_at now

abbrev pub timed_out : Time → Command → Command
timed_out now c = record c { status = "timeout"; completed_at = some now }

unfoldable pub mark_timeout : Time → Db → Db
unfolding is_overdue
mark_timeout now db = record db { commands = update (is_overdue now) (timed_out now) db.commands }

unfoldable pub run : Time → Exec Session (Unit {0})
unfolding mark_timeout
run now = do write (mark_timeout now); commit
