-- ===== src/Migrations/Initial/Operation.antt =====
-- server/alembic/versions/0001_initial.py: the tables that Models/Operation.antt has the rows of.
use rpi_io_t_server_project.Base.{none, some, true, [], ◌∷◌}
use rpi_io_t_server_project.Migrations.Ddl.{
  Table, required, optional, uuid, text, varchar, timestamptz, float, integer, boolean, jsonb,
  bigserial,
}

-- `telemetry`
abbrev pub telemetry_table : Table
telemetry_table = record {
  name = "telemetry";
  columns =
      (record (required "id" bigserial) { primary_key = true })
      ∷ (required "company_id" uuid)
      ∷ (optional "site_id" uuid)
      ∷ (required "gateway_id" uuid)
      ∷ (required "sensor_channel_id" uuid)
      ∷ (required "measurement_key" text)
      ∷ (record (required "ts" timestamptz) { primary_key = true })
      ∷ (optional "value_double" float)
      ∷ (optional "value_text" text)
      ∷ (optional "value_bool" boolean)
      ∷ (optional "value_json" jsonb)
      ∷ (optional "unit" text)
      ∷ (optional "quality" text)
      ∷ (optional "raw" jsonb)
      ∷ [];
  uniques = [];
  checks = [];
  indexes = [];
  default_partition = none;
  partitions = [];
}

-- `telemetry_latest`
abbrev pub telemetry_latest_table : Table
telemetry_latest_table = record {
  name = "telemetry_latest";
  columns =
      (record (required "gateway_id" uuid) { primary_key = true })
      ∷ (record (required "sensor_channel_id" uuid) { primary_key = true })
      ∷ (record (required "measurement_key" (varchar 64)) { primary_key = true })
      ∷ (required "ts" timestamptz)
      ∷ (optional "value_double" float)
      ∷ (optional "value_text" text)
      ∷ (optional "value_bool" boolean)
      ∷ (optional "value_json" jsonb)
      ∷ (optional "unit" (varchar 32))
      ∷ (optional "quality" (varchar 32))
      ∷ [];
  uniques = [];
  checks = [];
  indexes = [];
  default_partition = none;
  partitions = [];
}

-- `commands`
abbrev pub commands_table : Table
commands_table = record {
  name = "commands";
  columns =
      (record (required "id" text) { primary_key = true })
      ∷ (record (required "gateway_id" uuid) { references = some ("gateways", "id") })
      ∷ (record (optional "actuator_channel_id" uuid) {
        references = some ("actuator_channels", "id");
      })
      ∷ (required "action" (varchar 32))
      ∷ (record (optional "issued_by" uuid) { references = some ("users", "id") })
      ∷ (required "issued_at" timestamptz)
      ∷ (required "expires_at" timestamptz)
      ∷ (record (optional "timeout_ms" integer) { default = some "3000" })
      ∷ (record (optional "require_ack" boolean) { default = some "true" })
      ∷ (optional "reason" text)
      ∷ (record (required "status" (varchar 32)) { default = some "pending" })
      ∷ (optional "response" jsonb)
      ∷ (optional "completed_at" timestamptz)
      ∷ [];
  uniques = [];
  checks = [];
  indexes = [];
  default_partition = none;
  partitions = [];
}

-- `audit_logs`
abbrev pub audit_logs_table : Table
audit_logs_table = record {
  name = "audit_logs";
  columns =
      (record (required "id" uuid) { primary_key = true })
      ∷ (record (optional "user_id" uuid) { references = some ("users", "id") })
      ∷ (required "action" (varchar 64))
      ∷ (optional "target_type" (varchar 64))
      ∷ (optional "target_id" text)
      ∷ (optional "payload" jsonb)
      ∷ (record (optional "ts" timestamptz) { default = some "now()" })
      ∷ [];
  uniques = [];
  checks = [];
  indexes = [];
  default_partition = none;
  partitions = [];
}
