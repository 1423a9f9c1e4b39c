-- ===== src/Migrations/Initial/Asset.antt =====
-- server/alembic/versions/0001_initial.py: the tables that Models/Asset.antt has the rows of.
use rpi_io_t_server_project.Base.{none, some, true, [], ◌∷◌}
use rpi_io_t_server_project.Migrations.Ddl.{
  Table, required, optional, uuid, text, varchar, timestamptz, integer, boolean, jsonb,
}

-- `gateway_profiles`
abbrev pub gateway_profiles_table : Table
gateway_profiles_table = record {
  name = "gateway_profiles";
  columns =
      (record (required "id" uuid) { primary_key = true })
      ∷ (required "name" text)
      ∷ (required "model" text)
      ∷ (required "hardware_schema" jsonb)
      ∷ (optional "description" text)
      ∷ (record (optional "created_at" timestamptz) { default = some "now()" })
      ∷ [];
  uniques = [];
  checks = [];
  indexes = [];
  default_partition = none;
  partitions = [];
}

-- `gateways`
abbrev pub gateways_table : Table
gateways_table = record {
  name = "gateways";
  columns =
      (record (required "id" uuid) { primary_key = true })
      ∷ (record (required "serial_number" text) { unique = true })
      ∷ (required "name" text)
      ∷ (record (required "company_id" uuid) { references = some ("companies", "id") })
      ∷ (record (optional "site_id" uuid) { references = some ("sites", "id") })
      ∷ (record (optional "gateway_profile_id" uuid) {
        references = some ("gateway_profiles", "id");
      })
      ∷ (record (required "status" (varchar 32)) { default = some "offline" })
      ∷ (optional "firmware_version" (varchar 64))
      ∷ (optional "app_version" (varchar 64))
      ∷ (record (optional "config_version" integer) { default = some "0" })
      ∷ (optional "last_seen_at" timestamptz)
      ∷ (record (optional "registered_at" timestamptz) { default = some "now()" })
      ∷ [];
  uniques = [];
  checks = [];
  indexes = [];
  default_partition = none;
  partitions = [];
}

-- `sensor_profiles`
abbrev pub sensor_profiles_table : Table
sensor_profiles_table = record {
  name = "sensor_profiles";
  columns =
      (record (required "id" uuid) { primary_key = true })
      ∷ (required "name" text)
      ∷ (optional "vendor" text)
      ∷ (optional "model" text)
      ∷ (required "protocol" (varchar 32))
      ∷ (optional "description" text)
      ∷ (required "profile_schema" jsonb)
      ∷ (record (optional "enabled" boolean) { default = some "true" })
      ∷ (record (optional "created_at" timestamptz) { default = some "now()" })
      ∷ [];
  uniques = [];
  checks = [];
  indexes = [];
  default_partition = none;
  partitions = [];
}

-- `sensor_channels`
abbrev pub sensor_channels_table : Table
sensor_channels_table = record {
  name = "sensor_channels";
  columns =
      (record (required "id" uuid) { primary_key = true })
      ∷ (record (required "gateway_id" uuid) { references = some ("gateways", "id") })
      ∷ (record (required "sensor_profile_id" uuid) { references = some ("sensor_profiles", "id") })
      ∷ (required "display_name" text)
      ∷ (required "interface_name" (varchar 64))
      ∷ (required "protocol" (varchar 32))
      ∷ (optional "address" (varchar 64))
      ∷ (optional "slave_id" integer)
      ∷ (record (optional "polling_interval_sec" integer) { default = some "10" })
      ∷ (record (optional "enabled" boolean) { default = some "true" })
      ∷ (optional "config" jsonb)
      ∷ (record (optional "created_at" timestamptz) { default = some "now()" })
      ∷ [];
  uniques = [];
  checks = [];
  indexes = [];
  default_partition = none;
  partitions = [];
}

-- `actuator_channels`
abbrev pub actuator_channels_table : Table
actuator_channels_table = record {
  name = "actuator_channels";
  columns =
      (record (required "id" uuid) { primary_key = true })
      ∷ (record (required "gateway_id" uuid) { references = some ("gateways", "id") })
      ∷ (required "display_name" text)
      ∷ (required "actuator_type" (varchar 32))
      ∷ (required "hardware_channel" (varchar 64))
      ∷ (record (required "default_state" (varchar 8)) { default = some "off" })
      ∷ (optional "current_state" (varchar 16))
      ∷ (record (optional "enabled" boolean) { default = some "true" })
      ∷ (optional "safety_config" jsonb)
      ∷ (record (optional "created_at" timestamptz) { default = some "now()" })
      ∷ [];
  uniques = [];
  checks = [];
  indexes = [];
  default_partition = none;
  partitions = [];
}
