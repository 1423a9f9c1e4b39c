-- ===== src/System/Reachable.antt =====
-- What holds in every state that the processes reach.
use rpi_io_t_server_project.Base.{
  ◌≡◌, ◌≤◌, ◌⊎◌, inl, inr, List, [], ◌∷◌, eq_iff, string_eq, String, Bool, false, any, arith,
}
use rpi_io_t_server_project.Base.Unique.{any-update_self}
use rpi_io_t_server_project.Config.{Settings}
use rpi_io_t_server_project.Json.{Json}
use rpi_io_t_server_project.Models.{Db, Command}
use rpi_io_t_server_project.Platform.{Platform, Time}
use rpi_io_t_server_project.Session.{in_session}
use rpi_io_t_server_project.Scheduler.Timeout.{is_overdue, timed_out, mark_timeout}
use rpi_io_t_server_project.Scheduler.Timeout
use rpi_io_t_server_project.Api.Permission.Access.{IsRow}
use rpi_io_t_server_project.System.WellFormed.{IsWellFormed, IsWellFormed-IsClosed}
use rpi_io_t_server_project.System.Steps.{Reach, command_timeout, tick}
use rpi_io_t_server_project.System.Safety.{reach_keeps}

module _ (p : Platform) (settings : Settings) (schema_valid : Json → Bool)
    (name_le : String → String → Bool) {d d' : Db} where
  -- For every platform, settings, schema check and order of names: if nine properties hold of a
  -- database, they hold of every database that any sequence of steps leads to, where a step is a
  -- writing request, the second transaction of a command, a message to the worker with any content
  -- of its caches, or a round of a job of the scheduler. The nine are: gateways are unique by id
  -- and by serial; sensor and actuator channels by id, and by slug in their gateway; permissions
  -- by id, and by user, gateway and permission; commands by id; the newest values by key;
  -- telemetry rows by id, with every id below the next one of the sequence; partitions by month;
  -- and every command belongs to a gateway in the table.
  pub reach-IsWellFormed :
      IsWellFormed d → Reach p settings schema_valid name_le d d' → IsWellFormed d'
  reach-IsWellFormed h r =
      reach_keeps p settings schema_valid name_le IsWellFormed IsWellFormed-IsClosed r h

not_overdue : (now : Time) (c : Command) → is_overdue now (timed_out now c) ≡ false
unfolding is_overdue
not_overdue now c = ground arith

row_fails :
    {A : Type 0} (q : A → Bool) (x : A) (xs : List A) → any q xs ≡ false → IsRow x xs → q x ≡ false
unfolding any
row_fails q x [] none_hold h = elim h [ ]
row_fails q x (y ∷ ys) none_hold (inl here) = rw here (ground arith)
row_fails q x (y ∷ ys) none_hold (inr later) = row_fails q x ys (ground arith) later

unexpired :
    (now : Time) (c : Command)
    → is_overdue now c ≡ false
    → (c.status ≡ "pending") ⊎ (c.status ≡ "published")
    → now ≤ c.expires_at
unfolding is_overdue
unexpired now c in_time (inl pending) = ground (arith, eq_iff c.status "pending")
unexpired now c in_time (inr published) = ground (arith, eq_iff c.status "published")

-- After a round of the loop of the timeout job at a time, every command of the database whose
-- status is `pending` or `published` expires at that time or later.
pub tick_clears :
    (p : Platform) (settings : Settings) (schema_valid : Json → Bool)
    (name_le : String → String → Bool) (now : Time) (d : Db) (c : Command)
    → IsRow c (tick p settings schema_valid name_le command_timeout now d).commands
    → (c.status ≡ "pending") ⊎ (c.status ≡ "published")
    → now ≤ c.expires_at
unfolding tick in_session Timeout.run mark_timeout
tick_clears p settings schema_valid name_le now d c listed waits =
    let none_overdue =
      any-update_self (is_overdue now) (timed_out now) d.commands (not_overdue now) in
    unexpired now c (row_fails (is_overdue now) c _ none_overdue listed) waits
