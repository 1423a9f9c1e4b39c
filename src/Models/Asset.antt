-- ===== src/Models/Asset.antt =====
-- server/app/models.py: gateways, the sensors and actuators attached to them, and the profiles.
use rpi_io_t_server_project.Base.{String, Bool, Option}
use rpi_io_t_server_project.Base.Int.{ℤ}
use rpi_io_t_server_project.Json.{Json}
use rpi_io_t_server_project.Platform.{Uuid, Time}

-- A row of `gateway_profiles`.
pub record GatewayProfile : Type 0 where
  pub id : Uuid
  pub name : String
  pub model : String
  pub hardware_schema : Json
  pub description : Option String
  pub created_at : Time

-- A row of `gateways`.
pub record Gateway : Type 0 where
  pub id : Uuid
  pub serial_number : String
  pub name : String
  pub company_id : Uuid
  pub site_id : Option Uuid
  pub gateway_profile_id : Option Uuid
  pub status : String
  pub firmware_version : Option String
  pub app_version : Option String
  pub config_version : ℤ
  pub last_seen_at : Option Time
  pub registered_at : Time

-- A row of `sensor_profiles`.
pub record SensorProfile : Type 0 where
  pub id : Uuid
  pub name : String
  pub vendor : Option String
  pub model : Option String
  pub protocol : String
  pub description : Option String
  pub profile_schema : Json
  pub enabled : Bool
  pub created_at : Time

-- A row of `sensor_channels`.
pub record SensorChannel : Type 0 where
  pub id : Uuid
  pub gateway_id : Uuid
  pub slug : String
  pub sensor_profile_id : Uuid
  pub display_name : String
  pub interface_name : String
  pub protocol : String
  pub address : Option String
  pub slave_id : Option ℤ
  pub polling_interval_sec : ℤ
  pub enabled : Bool
  pub config : Option Json
  pub created_at : Time

-- A row of `actuator_channels`.
pub record ActuatorChannel : Type 0 where
  pub id : Uuid
  pub gateway_id : Uuid
  pub slug : String
  pub display_name : String
  pub actuator_type : String
  pub hardware_channel : String
  pub default_state : String
  pub current_state : Option String
  pub enabled : Bool
  pub safety_config : Option Json
  pub created_at : Time
