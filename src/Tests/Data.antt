-- ===== src/Tests/Data.antt =====
-- A small installation: two gateways, a sensor, an actuator, a user and a command.
use rpi_io_t_server_project.Base.{ℕ, ◌+◌, true, none, some, List, [], ◌∷◌, nat_eq}
use rpi_io_t_server_project.Base.Int.{pos}
use rpi_io_t_server_project.Json.{obj, end}
use rpi_io_t_server_project.Models.{
  Db, Gateway, SensorChannel, ActuatorChannel, Command, User, Company, UserGatewayPermission,
  empty_db,
}
use rpi_io_t_server_project.Platform.{Platform, Time, loaded, bad_json, Loaded}
use rpi_io_t_server_project.Schemas.{CommandIn, GatewayIn}
use rpi_io_t_server_project.Session.{open_session}
use rpi_io_t_server_project.Worker.Lookups.{Worker}
use rpi_io_t_server_project.Api.Commands.{Backend}

-- A time in 2026.
abbrev pub noon : Time
noon = 63_930_000_000_000_000

-- An empty payload is no JSON; every other one is a heartbeat.
abbrev payload_of : List ℕ → Loaded
payload_of [] = bad_json
payload_of (b ∷ bs) = loaded (obj end)

abbrev pub platform : Platform
platform = record {
  fromisoformat = λ s. none;
  loads = payload_of;
  float_of_int = λ n. some 0;
  text_column = λ n s. some s;
  jsonb_column = λ v. true;
  year_month = λ t. (2026, 11);
}

abbrev pub gateway : Gateway
gateway = record {
  id = 1;
  serial_number = "GW-1";
  name = "barn";
  company_id = 10;
  site_id = none;
  gateway_profile_id = none;
  status = "online";
  firmware_version = none;
  app_version = none;
  config_version = pos 0;
  last_seen_at = none;
  registered_at = noon;
}

abbrev pub neighbour : Gateway
neighbour = record gateway { id = 2; serial_number = "GW-2"; last_seen_at = some noon }

abbrev pub sensor : SensorChannel
sensor = record {
  id = 20;
  gateway_id = 1;
  slug = "env-1";
  sensor_profile_id = 21;
  display_name = "air";
  interface_name = "/dev/ttyUSB0";
  protocol = "modbus_rtu";
  address = none;
  slave_id = none;
  polling_interval_sec = pos 10;
  enabled = true;
  config = none;
  created_at = noon;
}

abbrev pub relay : ActuatorChannel
relay = record {
  id = 30;
  gateway_id = 1;
  slug = "relay-vent";
  display_name = "fan";
  actuator_type = "relay";
  hardware_channel = "GPIO17";
  default_state = "off";
  current_state = none;
  enabled = true;
  safety_config = none;
  created_at = noon;
}

abbrev pub user : User
user = record {
  id = 40;
  keycloak_user_id = "sim-admin";
  email = "admin@sim.local";
  name = "Sim Admin";
  status = "active";
  created_at = noon;
}

abbrev pub company : Company
company = record {
  id = 10;
  name = "IoT Sim Co.";
  company_type = "management";
  status = "active";
  created_at = noon;
  updated_at = noon;
}

abbrev pub permission : UserGatewayPermission
permission = record {
  id = 50;
  user_id = 40;
  gateway_id = 1;
  permission = "admin";
  created_at = noon;
}

-- A command that gateway 1 was sent and has not answered.
abbrev pub command : Command
command = record {
  id = "cmd-1";
  gateway_id = 1;
  actuator_channel_id = some 30;
  action = "ON";
  issued_by = some 40;
  issued_at = noon;
  expires_at = noon;
  timeout_ms = pos 3000;
  require_ack = true;
  reason = none;
  status = "published";
  response = none;
  completed_at = none;
}

abbrev pub idle_db : Db
idle_db = record empty_db {
  companies = company ∷ [];
  users = user ∷ [];
  user_gateway_permissions = permission ∷ [];
  gateways = gateway ∷ neighbour ∷ [];
  sensor_channels = sensor ∷ [];
  actuator_channels = relay ∷ [];
}

abbrev pub db : Db
db = record idle_db { commands = command ∷ [] }

abbrev pub worker : Worker
worker = record {
  gateway_cache = [];
  sensor_channel_cache = [];
  actuator_channel_cache = [];
  readings = λ n. n + 10;
  session = open_session db;
}

abbrev pub backend : Backend
backend = record { session = open_session idle_db; outbox = [] }

abbrev pub switch_on : CommandIn
switch_on = record {
  actuator_channel_id = 30;
  action = "ON";
  expires_in_sec = pos 5;
  timeout_ms = pos 3000;
  require_ack = true;
  reason = none;
}

abbrev pub newcomer : GatewayIn
newcomer = record {
  serial_number = "GW-3";
  name = "shed";
  company_id = 10;
  site_id = none;
  gateway_profile_id = none;
}
