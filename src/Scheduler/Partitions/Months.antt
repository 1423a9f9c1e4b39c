-- ===== src/Scheduler/Partitions/Months.antt =====
-- The months that the partition manager covers.
use rpi_io_t_server_project.Base.{ℕ, zero, suc, ◌+◌, ◌≤◌, ◌≡◌, ◌||◌, any, arith, ltb, leb, ◌&&◌}
use rpi_io_t_server_project.Scheduler.Partitions.{
  Month, next_bound, advance, month_partition, index, covers, wanted,
}

abbrev pub IsMonth : Month → Type 0
IsMonth (y, m) = (1 ≤ m) × (m ≤ 12)

advance-IsMonth : (n : Month) → IsMonth n → IsMonth (advance n)
unfolding advance
advance-IsMonth (y, m) h = ground arith

index-advance : (n : Month) → IsMonth n → index (advance n) ≡ index n + 1
unfolding advance
index-advance (y, m) h = ground arith

-- For a month between 1 and 12, the upper bound in the text of its partition is the month that the
-- loop of the job goes on to, so consecutive partitions meet.
pub next_bound-eq-advance : (n : Month) → IsMonth n → next_bound n ≡ advance n
unfolding next_bound advance
next_bound-eq-advance (y, m) h = ground arith

covers-month_partition :
    (y m : ℕ) (month : Month)
    → IsMonth (y, m)
    → covers month (month_partition y m)
      ≡ (leb (index (y, m)) (index month) && ltb (index month) (index (y, m) + 1))
unfolding covers month_partition
covers-month_partition y m month h = rw (next_bound-eq-advance (y, m) h, index-advance (y, m) h)

join_ranges :
    (a n x : ℕ)
    → (leb a x && ltb x (a + 1)) || (leb (a + 1) x && ltb x (a + 1 + n))
      ≡ (leb a x && ltb x (a + suc n))
join_ranges a n x = ground arith

-- For a first month between 1 and 12, a month is covered by one of the partitions that a loop of
-- `n` turns asks for exactly when it is one of the `n` calendar months from the first on.
pub any-covers-wanted :
    (n : ℕ) (from month : Month)
    → IsMonth from
    → any (covers month) (wanted n from)
      ≡ (leb (index from) (index month) && ltb (index month) (index from + n))
unfolding any wanted
any-covers-wanted zero (y, m) month h = ground arith
any-covers-wanted (suc n) (y, m) month h =
    rw
      (
        covers-month_partition y m month h,
        any-covers-wanted n (advance (y, m)) month (advance-IsMonth (y, m) h),
        index-advance (y, m) h,
      )
      (join_ranges (index (y, m)) n (index month))
