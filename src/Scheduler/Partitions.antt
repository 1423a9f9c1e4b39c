-- ===== src/Scheduler/Partitions.antt =====
-- server/scheduler/jobs/partition_manager.py: the monthly partitions of `telemetry`.
pub mod Text
pub mod Months
pub mod Coverage
use rpi_io_t_server_project.Base.{
  ℕ, zero, suc, ◌+◌, ◌/◌, ◌%◌, String, ◌<>◌, Bool, ◌*◌, leb, ltb, ◌&&◌, List, [], ◌∷◌, ◌++◌, ◌==◌,
  nat_eq, any, pair_eq, if◌then◌else◌,
}
use rpi_io_t_server_project.Base.Exec.{
  Exec, Result, ok, raised, integrity_error, ◌>>=◌, ◌>>◌, pure, continue,
}
use rpi_io_t_server_project.Models.{Db, Telemetry}
use rpi_io_t_server_project.Platform.{Platform, Time}
use rpi_io_t_server_project.Session.{Session, write, commit, read}

abbrev pub Month : Type 0
Month = ℕ × ℕ

abbrev pub lookahead_months : ℕ
lookahead_months = 4

-- The upper bound of a partition: the first day of the next month.
unfoldable pub next_bound : Month → Month
next_bound (year, month) = if ltb month 12 then (year, month + 1) else (year + 1, 1)

-- The step of the loop in `run`.
unfoldable pub advance : Month → Month
advance (y, m) = let m' = m + 1 in if ltb 12 m' then (y + 1, 1) else (y, m')

-- `_month_partition_sql` with its text read as the statement that it is: the bounds of the partition.
unfoldable pub month_partition : ℕ → ℕ → Month × Month
unfolding next_bound
month_partition year month = ((year, month), next_bound (year, month))

-- Months in a row have indices in a row.
abbrev pub index : Month → ℕ
index (y, m) = 12 * y + m

-- Whether a row of the month belongs to a partition with these bounds.
unfoldable pub covers : Month → Month × Month → Bool
covers month (from, to) = leb (index from) (index month) && ltb (index month) (index to)

-- `for _ in range(LOOKAHEAD_MONTHS)`: the partitions that a run asks for.
unfoldable pub wanted : ℕ → Month → List (Month × Month)
unfolding month_partition advance
wanted zero month = []
wanted (suc n) (y, m) = month_partition y m ∷ wanted n (advance (y, m))

module _ (p : Platform) where
  -- Whether some row belongs to the partition.
  unfoldable pub occupied : Month × Month → Db → Bool
  unfolding covers
  occupied part db = any (λ (r : Telemetry). covers (p.year_month r.ts) part) db.telemetry

  -- CREATE TABLE IF NOT EXISTS ... PARTITION OF telemetry: nothing where a table of that name, which
  -- is made of the first month, stands; refused while the DEFAULT partition holds rows that would
  -- belong to it. Rows of a month with no partition lie there.
  unfoldable pub create_partition : Month × Month → Exec Session (Unit {0})
  unfolding occupied
  create_partition part s =
      if any (λ (q : Month × Month). q.0 == part.0) s.working.partitions
      then (ok tt, s)
      else if occupied part s.working
      then (raised integrity_error, s)
      else write (λ db. record db { partitions = db.partitions ++ part ∷ [] }) s

  unfoldable pub ensure : List (Month × Month) → Exec Session (Unit {0})
  ensure [] = pure tt
  ensure (part ∷ parts) = do create_partition part; ensure parts

  unfoldable pub run : Time → Exec Session (Unit {0})
  run now = do ensure (wanted lookahead_months (p.year_month now)); commit
