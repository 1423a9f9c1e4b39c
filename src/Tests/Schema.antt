-- ===== src/Tests/Schema.antt =====
-- The migrations' theorems at concrete inputs.
use rpi_io_t_server_project.Base.{
  ◌≡◌, ◌++◌, false, none, some, [], ◌∷◌, any, string_eq, pair_eq, nat_eq, refl, arith,
}
use rpi_io_t_server_project.Scheduler.Partitions.{
  Month, wanted, month_partition, advance, next_bound,
}
use rpi_io_t_server_project.Scheduler.Partitions.Text.{month_name}
use rpi_io_t_server_project.Migrations.Ddl.{taken, taken_month, Table, Catalog, optional, integer}
use rpi_io_t_server_project.Migrations.Initial
use rpi_io_t_server_project.Migrations.ChannelSlug
use rpi_io_t_server_project.Migrations.RoundTrip.{
  telemetry_partitions, AllFree, names, upgrade_partitions,
}

-- The table in which alembic keeps the revision.
abbrev version_table : Table
version_table = record {
  name = "alembic_version";
  columns = optional "version_num" integer ∷ [];
  uniques = [];
  checks = [];
  indexes = [];
  default_partition = none;
  partitions = [];
}

abbrev fresh : Catalog
fresh = version_table ∷ []

fresh_free : AllFree names fresh
unfolding any
fresh_free = ground arith

no_default : taken "telemetry_default" fresh ≡ false
unfolding any
no_default = refl

no_months : any (λ (part : Month × Month). taken_month part.0 fresh) (wanted 4 (2026, 11)) ≡ false
unfolding any wanted month_partition advance next_bound month_name
no_months = refl

upgrade_partitions_example :
    telemetry_partitions (Initial.upgrade (2026, 11) ++ ChannelSlug.upgrade) fresh
    ≡ some (wanted 4 (2026, 11))
upgrade_partitions_example =
    upgrade_partitions (2026, 11) fresh (omega arith, omega arith) fresh_free no_default no_months
