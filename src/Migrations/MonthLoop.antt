-- ===== src/Migrations/MonthLoop.antt =====
-- The loop of the first migration over the months, on the table that it has just made.
use rpi_io_t_server_project.Base.{
  ℕ, String, ◌≡◌, true, false, any, map, nat_eq, pair_eq, string_eq, some, [], ◌∷◌, ◌==◌, arith,
  eq_iff, Bool-cases, inl, inr,
}
use text.Mathlib.Text.{starts_with}
use text.Mathlib.TextPositions.{starts_with-append}
use rpi_io_t_server_project.Scheduler.Partitions.Text.{month_name}
use rpi_io_t_server_project.Scheduler.Partitions.{
  Month, wanted, month_partition, next_bound, advance,
}
use rpi_io_t_server_project.Scheduler.Partitions.Months.{IsMonth}
use rpi_io_t_server_project.Migrations.Ddl.{
  Table, Catalog, apply_all, create_partition, taken_month,
}
use rpi_io_t_server_project.Migrations.Initial

-- A name that does not begin like those of the partitions is none of them.
pub not_month_name :
    (name : String) (month : Month)
    → starts_with name "telemetry_" ≡ false
    → (name == month_name month) ≡ false
unfolding month_name
not_month_name name (year, m) h = elim (Bool-cases (name == month_name (year, m))) [
  | inr differs ↦ differs
  | inl same ↦
      let e : starts_with name "telemetry_" ≡ true =
        rw ((eq_iff name (month_name (year, m))).0 same) (starts_with-append "telemetry_" _) in
      absurd (ground (arith, e, h))
]

module _ (y m : ℕ) (month : IsMonth (y, m)) where
  -- The loop of the migration asks for the partitions that the scheduler's loop asks for.
  pub months-wanted : Initial.months 4 (y, m) ≡ wanted 4 (y, m)
  unfolding wanted month_partition advance next_bound Initial.months Initial.month_bounds
      Initial.next_month
  months-wanted = ground arith

  pub loop_makes :
      (t : Table) (ts : Catalog)
      → (t.name == "telemetry") ≡ true
      → t.partitions ≡ []
      → any (λ (part : Month × Month). taken_month part.0 (t ∷ ts)) (wanted 4 (y, m)) ≡ false
      → apply_all (map (create_partition "telemetry") (wanted 4 (y, m))) (t ∷ ts)
        ≡ some (record t { partitions = wanted 4 (y, m) } ∷ ts)
  unfolding apply_all any wanted month_partition advance next_bound
  loop_makes t ts named empty free = ground arith
