-- ===== src/Scheduler/Partitions/Text.antt =====
-- The SQL text of `_month_partition_sql` (server/scheduler/jobs/partition_manager.py and
-- server/alembic/versions/0001_initial.py), with its decimal numbers.
use rpi_io_t_server_project.Base.{ℕ, String, ◌<>◌, ltb, if◌then◌else◌, ◌≡◌, refl}
use rpi_io_t_server_project.Base.Decimal.{digit, decimal}
use rpi_io_t_server_project.Scheduler.Partitions.{next_bound}

-- `{month:02d}`
two_digits : ℕ → String
unfolding decimal digit
two_digits n = if ltb n 10 then "0" <> digit n else decimal 2 n

-- `{year}-{month:02d}-01`
first_day : ℕ × ℕ → String
unfolding two_digits
first_day (year, month) = decimal 5 year <> ("-" <> (two_digits month <> "-01"))

-- `telemetry_{year}_{month:02d}`
unfoldable pub month_name : ℕ × ℕ → String
unfolding two_digits
month_name (year, month) = "telemetry_" <> (decimal 5 year <> ("_" <> two_digits month))

-- The name of the partition and the statement that makes it.
unfoldable pub month_partition_sql : ℕ → ℕ → String × String
unfolding first_day next_bound month_name
month_partition_sql year month =
    let name = month_name (year, month) in
    (
      name,
      "CREATE TABLE IF NOT EXISTS "
          <> (name
              <> (" PARTITION OF telemetry FOR VALUES FROM ('"
                  <> (first_day (year, month)
                      <> ("') TO ('" <> (first_day (next_bound (year, month)) <> "');"))))),
    )

december : month_partition_sql 2026 12 ≡ (
  "telemetry_2026_12",
  "CREATE TABLE IF NOT EXISTS telemetry_2026_12 PARTITION OF telemetry FOR VALUES FROM ('2026-12-01') TO ('2027-01-01');",
)
unfolding month_partition_sql
december = refl
