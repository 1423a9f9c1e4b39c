-- ===== src/Migrations/Initial.antt =====
-- server/alembic/versions/0001_initial.py: the first migration, which makes the tables.
pub mod Identity
pub mod Asset
pub mod Operation
use rpi_io_t_server_project.Base.{
  ℕ, zero, suc, ◌+◌, ltb, if◌then◌else◌, String, List, [], ◌∷◌, ◌++◌, map,
}
use rpi_io_t_server_project.Scheduler.Partitions.{Month}
use rpi_io_t_server_project.Migrations.Ddl.{
  Ddl, create_table, create_index, create_default, create_partition, drop_table, drop_cascade,
}
use rpi_io_t_server_project.Migrations.Initial.Identity.{
  companies_table, sites_table, users_table, user_company_roles_table,
  user_gateway_permissions_table,
}
use rpi_io_t_server_project.Migrations.Initial.Asset.{
  gateway_profiles_table, gateways_table, sensor_profiles_table, sensor_channels_table,
  actuator_channels_table,
}
use rpi_io_t_server_project.Migrations.Initial.Operation.{
  telemetry_table, telemetry_latest_table, commands_table, audit_logs_table,
}

-- The statements before the partitions of the months.
unfoldable pub tables : List Ddl
tables =
    create_table companies_table
    ∷ create_table sites_table
    ∷ create_table users_table
    ∷ create_table user_company_roles_table
    ∷ create_table user_gateway_permissions_table
    ∷ create_table gateway_profiles_table
    ∷ create_table gateways_table
    ∷ create_index "gateways" "ix_gateways_company" ("company_id" ∷ [])
    ∷ create_index "gateways" "ix_gateways_site" ("site_id" ∷ [])
    ∷ create_table sensor_profiles_table
    ∷ create_table sensor_channels_table
    ∷ create_index "sensor_channels" "ix_sensor_channels_gateway" ("gateway_id" ∷ [])
    ∷ create_table actuator_channels_table
    ∷ create_index "actuator_channels" "ix_actuator_channels_gateway" ("gateway_id" ∷ [])
    ∷ create_table telemetry_table
    ∷ create_index "telemetry" "ix_telemetry_gw_ch_ts"
        ("gateway_id" ∷ "sensor_channel_id" ∷ "ts DESC" ∷ [])
    ∷ create_default "telemetry" "telemetry_default"
    ∷ []

-- The statements after them.
unfoldable pub later_tables : List Ddl
later_tables =
    create_table telemetry_latest_table
    ∷ create_table commands_table
    ∷ create_index "commands" "ix_commands_gw_status" ("gateway_id" ∷ "status" ∷ [])
    ∷ create_index "commands" "ix_commands_expires" ("expires_at" ∷ [])
    ∷ create_table audit_logs_table
    ∷ create_index "audit_logs" "ix_audit_user_ts" ("user_id" ∷ "ts" ∷ [])
    ∷ []

-- `_month_partition_sql` of the migration, with its text read as the bounds of the partition.
unfoldable pub month_bounds : ℕ → ℕ → Month × Month
month_bounds year month =
    ((year, month), (if ltb month 12 then (year, month + 1) else (year + 1, 1)))

-- The step of its loop.
unfoldable pub next_month : Month → Month
next_month (y, m) = if ltb 12 (m + 1) then (y + 1, 1) else (y, m + 1)

-- Its loop: `n` turns from a month on.
unfoldable pub months : ℕ → Month → List (Month × Month)
unfolding month_bounds next_month
months zero month = []
months (suc n) (y, m) = month_bounds y m ∷ months n (next_month (y, m))

-- `upgrade`, in the month of its run: the partitions are those of this month and the next three.
unfoldable pub upgrade : Month → List Ddl
unfolding tables later_tables months
upgrade now = tables ++ map (create_partition "telemetry") (months 4 now) ++ later_tables

-- `downgrade`
unfoldable pub downgrade : List Ddl
downgrade =
    drop_table "audit_logs"
    ∷ drop_table "commands"
    ∷ drop_table "telemetry_latest"
    ∷ drop_cascade "telemetry"
    ∷ drop_table "actuator_channels"
    ∷ drop_table "sensor_channels"
    ∷ drop_table "sensor_profiles"
    ∷ drop_table "gateways"
    ∷ drop_table "gateway_profiles"
    ∷ drop_table "user_gateway_permissions"
    ∷ drop_table "user_company_roles"
    ∷ drop_table "users"
    ∷ drop_table "sites"
    ∷ drop_table "companies"
    ∷ []
