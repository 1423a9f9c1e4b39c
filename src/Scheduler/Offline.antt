-- ===== src/Scheduler/Offline.antt =====
-- server/scheduler/jobs/offline_detector.py: a gateway that was not seen for too long is offline.
pub mod Effect
use rpi_io_t_server_project.Base.{
  ℕ, ◌-◌, ◌*◌, String, Bool, true, ltb, ◌&&◌, Option, none, some, ◌==◌, string_eq, update,
  if◌then◌else◌,
}
use rpi_io_t_server_project.Base.Exec.{Exec, Result, ok, raised, overflow_error, ◌>>=◌, ◌>>◌, lift}
use rpi_io_t_server_project.Config.{Settings}
use rpi_io_t_server_project.Models.{Db, Gateway}
use rpi_io_t_server_project.Platform.{Time}
use rpi_io_t_server_project.Session.{Session, write, commit}

-- Microseconds in a second.
abbrev pub second : ℕ
second = 1_000_000

-- `now - timedelta(seconds=sec)`: there is no time before `datetime.min`.
unfoldable pub before : Time → ℕ → Result Time
before now sec = if ltb now (sec * second) then raised overflow_error else ok (now - sec * second)

abbrev unseen_since : Time → Option Time → Bool
unseen_since threshold none = true
unseen_since threshold (some t) = ltb t threshold

-- The WHERE clause of the job.
unfoldable pub is_stale : Time → Gateway → Bool
is_stale threshold g = g.status == "online" && unseen_since threshold g.last_seen_at

abbrev pub offline : Gateway → Gateway
offline g = record g { status = "offline" }

unfoldable pub mark_offline : Time → Db → Db
unfolding is_stale
mark_offline threshold db = record db { gateways = update (is_stale threshold) offline db.gateways }

unfoldable pub run : Settings → Time → Exec Session (Unit {0})
unfolding before mark_offline
run settings now = do
  threshold ← lift (before now settings.offline_threshold_sec)
  write (mark_offline threshold)
  commit
