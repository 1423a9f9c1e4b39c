-- ===== src/Models.antt =====
-- server/app/models.py: the tables. A row is a record with the columns of its class in their order;
-- a table is the list of its rows in the order of insertion.
mod Identity
mod Asset
mod Operation
pub use Identity.*
pub use Asset.*
pub use Operation.*
use rpi_io_t_server_project.Base.{ℕ, List, []}

-- The database. `next_telemetry_id` is the sequence behind `telemetry.id`, and `partitions` has
-- the monthly partitions of `telemetry`: the first month of each, and the month that follows it, as
-- pairs of year and month.
pub record Db : Type 0 where
  pub companies : List Company
  pub sites : List Site
  pub users : List User
  pub user_company_roles : List UserCompanyRole
  pub user_gateway_permissions : List UserGatewayPermission
  pub gateway_profiles : List GatewayProfile
  pub gateways : List Gateway
  pub sensor_profiles : List SensorProfile
  pub sensor_channels : List SensorChannel
  pub actuator_channels : List ActuatorChannel
  pub telemetry : List Telemetry
  pub telemetry_latest : List TelemetryLatest
  pub commands : List Command
  pub audit_logs : List AuditLog
  pub next_telemetry_id : ℕ
  pub partitions : List ((ℕ × ℕ) × (ℕ × ℕ))

-- A database with no rows.
abbrev pub empty_db : Db
empty_db = record {
  companies = [];
  sites = [];
  users = [];
  user_company_roles = [];
  user_gateway_permissions = [];
  gateway_profiles = [];
  gateways = [];
  sensor_profiles = [];
  sensor_channels = [];
  actuator_channels = [];
  telemetry = [];
  telemetry_latest = [];
  commands = [];
  audit_logs = [];
  next_telemetry_id = 1;
  partitions = [];
}
