-- ===== src/Schemas.antt =====
-- server/app/schemas.py: the request bodies, and what pydantic checks of them. A response is the row
-- itself, whose columns the response model names.
use rpi_io_t_server_project.Base.{ℕ, String, Bool, ◌&&◌, ◌||◌, leb, Option, ◌==◌, string_eq, suc}
use rpi_io_t_server_project.Base.Int.{ℤ}
use rpi_io_t_server_project.Json.{Json, Double}
use rpi_io_t_server_project.Platform.{Uuid}
use rpi_io_t_server_project.Worker.Topic.{slug_char, all_chars}

-- The number of characters.
unfoldable pub char_count : String → ℕ
char_count String.[] = 0
char_count (String.◌∷◌ c s) = suc (char_count s)

-- `SlugStr`: one to 64 letters, digits, underscores and dashes.
unfoldable pub is_slug : String → Bool
unfolding char_count
is_slug s = leb 1 (char_count s) && (leb (char_count s) 64 && all_chars slug_char s)

pub record CompanyIn : Type 0 where
  pub name : String
  pub company_type : String
  pub status : String

unfoldable pub valid_company : CompanyIn → Bool
valid_company b = b.company_type == "management" || b.company_type == "customer"

pub record SiteIn : Type 0 where
  pub company_id : Uuid
  pub name : String
  pub address : Option String
  pub latitude : Option Double
  pub longitude : Option Double

pub record GatewayIn : Type 0 where
  pub serial_number : String
  pub name : String
  pub company_id : Uuid
  pub site_id : Option Uuid
  pub gateway_profile_id : Option Uuid

-- The fields of a PATCH: `none` is a field that the body does not set, `some none` one that it sets
-- to null.
pub record GatewayPatch : Type 0 where
  pub name : Option (Option String)
  pub site_id : Option (Option Uuid)
  pub gateway_profile_id : Option (Option Uuid)
  pub status : Option (Option String)
  pub firmware_version : Option (Option String)
  pub app_version : Option (Option String)

pub record SensorProfileIn : Type 0 where
  pub name : String
  pub vendor : Option String
  pub model : Option String
  pub protocol : String
  pub description : Option String
  pub profile_schema : Json
  pub enabled : Bool

pub record SensorChannelIn : Type 0 where
  pub slug : String
  pub sensor_profile_id : Uuid
  pub display_name : String
  pub interface_name : String
  pub protocol : String
  pub address : Option String
  pub slave_id : Option ℤ
  pub polling_interval_sec : ℤ
  pub enabled : Bool
  pub config : Option Json

pub record ActuatorChannelIn : Type 0 where
  pub slug : String
  pub display_name : String
  pub actuator_type : String
  pub hardware_channel : String
  pub default_state : String
  pub enabled : Bool
  pub safety_config : Option Json

unfoldable pub valid_actuator : ActuatorChannelIn → Bool
unfolding is_slug
valid_actuator b =
    is_slug b.slug
    && (b.actuator_type == "relay"
        || (b.actuator_type == "valve" || (b.actuator_type == "pump" || b.actuator_type == "ssr")))

pub record CommandIn : Type 0 where
  pub actuator_channel_id : Uuid
  pub action : String
  pub expires_in_sec : ℤ
  pub timeout_ms : ℤ
  pub require_ack : Bool
  pub reason : Option String

unfoldable pub valid_command : CommandIn → Bool
valid_command b = b.action == "ON" || b.action == "OFF"
