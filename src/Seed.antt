-- ===== src/Seed.antt =====
-- deploy/scripts/sim-seed.py: the rows of the simulation. The new UUIDs, the time of the defaults
-- and the example profile that the script reads are arguments.
mod Statements
pub mod Ensures
pub mod Idempotent
unfoldable pub use Statements.*
use rpi_io_t_server_project.Base.{
  ℕ, String, Bool, true, false, not, ◌&&◌, ◌||◌, any, find?, Option, none, some, List, [], ◌∷◌,
  ◌++◌, ◌==◌, nat_eq, string_eq, if◌then◌else◌,
}
use rpi_io_t_server_project.Base.Int.{pos}
use rpi_io_t_server_project.Base.Exec.{Exec, ◌>>=◌, ◌>>◌, pure}
use rpi_io_t_server_project.Json.{Json, obj, field, end, int}
use rpi_io_t_server_project.Models.{
  Db, Company, Site, User, UserCompanyRole, UserGatewayPermission, Gateway, SensorProfile,
  SensorChannel, ActuatorChannel,
}
use rpi_io_t_server_project.Platform.{Uuid, Time}
use rpi_io_t_server_project.Session.{Session, read, write_checked, commit}
use rpi_io_t_server_project.Api.Gateways.{gateway_fits, permission_fits}
use rpi_io_t_server_project.Api.Channels.{sensor_fits, actuator_fits}

-- The UUIDs that a run would use for new rows.
pub record NewIds : Type 0 where
  pub company : Uuid
  pub site : Uuid
  pub user : Uuid
  pub role : Uuid
  pub gateway : Uuid
  pub permission : Uuid
  pub profile : Uuid
  pub sensor : Uuid
  pub vent : Uuid
  pub spray : Uuid

module _ (now : Time) where
  abbrev pub company_row : Uuid → Company
  company_row id = record {
    id = id;
    name = "IoT Sim Co.";
    company_type = "management";
    status = "active";
    created_at = now;
    updated_at = now;
  }

  unfoldable pub seed_company : Uuid → Exec Session Uuid
  seed_company id =
      find_or_insert find_company id (λ d. not (any (λ (c : Company). c.id == id) d.companies))
        (λ d. record d { companies = d.companies ++ company_row id ∷ [] })

  abbrev pub site_row : Uuid → Uuid → Site
  site_row id company_id = record {
    id = id;
    company_id = company_id;
    name = "Sim Farm";
    address = none;
    latitude = none;
    longitude = none;
    created_at = now;
  }

  unfoldable pub seed_site : Uuid → Uuid → Exec Session Uuid
  seed_site id company_id =
      find_or_insert (find_site company_id) id
        (λ d.
          not (any (λ (s : Site). s.id == id) d.sites)
          && any (λ (c : Company). c.id == company_id) d.companies)
        (λ d. record d { sites = d.sites ++ site_row id company_id ∷ [] })

  abbrev pub user_row : Uuid → User
  user_row id = record {
    id = id;
    keycloak_user_id = "sim-admin";
    email = "admin@sim.local";
    name = "Sim Admin";
    status = "active";
    created_at = now;
  }

  unfoldable pub seed_user : Uuid → Exec Session Uuid
  seed_user id =
      find_or_insert find_user id
        (λ d. not (any (λ (u : User). u.id == id || u.keycloak_user_id == "sim-admin") d.users))
        (λ d. record d { users = d.users ++ user_row id ∷ [] })

  abbrev pub role_row : Uuid → Uuid → Uuid → UserCompanyRole
  role_row id user_id company_id = record {
    id = id;
    user_id = user_id;
    company_id = company_id;
    role = "company_admin";
    created_at = now;
  }

  unfoldable pub seed_role : Uuid → Uuid → Uuid → Exec Session (Unit {0})
  seed_role id user_id company_id =
      insert_unless (has_role user_id company_id)
        (λ d.
          not (any (λ (r : UserCompanyRole). r.id == id) d.user_company_roles)
          && (any (λ (u : User). u.id == user_id) d.users
              && any (λ (c : Company). c.id == company_id) d.companies))
        (λ d. record d {
          user_company_roles = d.user_company_roles ++ role_row id user_id company_id ∷ [];
        })

  abbrev pub gateway_row : Uuid → String → Uuid → Uuid → Gateway
  gateway_row id serial company_id site_id = record {
    id = id;
    serial_number = serial;
    name = "Sim Gateway 01";
    company_id = company_id;
    site_id = some site_id;
    gateway_profile_id = none;
    status = "offline";
    firmware_version = none;
    app_version = none;
    config_version = pos 0;
    last_seen_at = none;
    registered_at = now;
  }

  unfoldable pub seed_gateway : Uuid → String → Uuid → Uuid → Exec Session Uuid
  seed_gateway id serial company_id site_id =
      find_or_insert (find_gateway serial) id
        (gateway_fits (gateway_row id serial company_id site_id))
        (λ d. record d { gateways = d.gateways ++ gateway_row id serial company_id site_id ∷ [] })

  abbrev pub permission_row : Uuid → Uuid → Uuid → UserGatewayPermission
  permission_row id user_id gateway_id = record {
    id = id;
    user_id = user_id;
    gateway_id = gateway_id;
    permission = "admin";
    created_at = now;
  }

  unfoldable pub seed_permission : Uuid → Uuid → Uuid → Exec Session (Unit {0})
  seed_permission id user_id gateway_id =
      insert_unless (has_permission user_id gateway_id)
        (permission_fits (permission_row id user_id gateway_id))
        (λ d. record d {
          user_gateway_permissions =
              d.user_gateway_permissions ++ permission_row id user_id gateway_id ∷ [];
        })

  abbrev pub profile_row : Uuid → Json → SensorProfile
  profile_row id profile_json = record {
    id = id;
    name = "env-6in1-sim";
    vendor = some "Sim Vendor";
    model = some "env-6in1-sim";
    protocol = "modbus_rtu";
    description = none;
    profile_schema = profile_json;
    enabled = true;
    created_at = now;
  }

  unfoldable pub seed_profile : Uuid → Json → Exec Session Uuid
  seed_profile id profile_json =
      find_or_insert find_profile id
        (λ d. not (any (λ (s : SensorProfile). s.id == id) d.sensor_profiles))
        (λ d. record d { sensor_profiles = d.sensor_profiles ++ profile_row id profile_json ∷ [] })

  abbrev pub sensor_row : Uuid → Uuid → Uuid → SensorChannel
  sensor_row id gateway_id profile_id = record {
    id = id;
    gateway_id = gateway_id;
    slug = "env-1";
    sensor_profile_id = profile_id;
    display_name = "환경 6-in-1 센서";
    interface_name = "/dev/null";
    protocol = "modbus_rtu";
    address = some "0001";
    slave_id = some (pos 1);
    polling_interval_sec = pos 5;
    enabled = true;
    config = none;
    created_at = now;
  }

  unfoldable pub seed_sensor : Uuid → Uuid → Uuid → Exec Session Uuid
  seed_sensor id gateway_id profile_id =
      find_or_insert (find_sensor gateway_id) id (sensor_fits (sensor_row id gateway_id profile_id))
        (λ d. record d {
          sensor_channels = d.sensor_channels ++ sensor_row id gateway_id profile_id ∷ [];
        })

  abbrev pub actuator_row : Uuid → Uuid → String → String → String → ℕ → ActuatorChannel
  actuator_row id gateway_id slug name hw max_on = record {
    id = id;
    gateway_id = gateway_id;
    slug = slug;
    display_name = name;
    actuator_type = "relay";
    hardware_channel = hw;
    default_state = "off";
    current_state = none;
    enabled = true;
    safety_config = some (obj (field "max_on_duration_sec" (int (pos max_on)) end));
    created_at = now;
  }

  -- One turn of the loop over the actuators.
  unfoldable pub seed_actuator : Uuid → Uuid → String → String → String → ℕ → Exec Session Uuid
  seed_actuator id gateway_id slug name hw max_on =
      find_or_insert (find_actuator gateway_id slug) id
        (actuator_fits (actuator_row id gateway_id slug name hw max_on))
        (λ d. record d {
          actuator_channels =
              d.actuator_channels ++ actuator_row id gateway_id slug name hw max_on ∷ [];
        })

module _ (now : Time) (ids : NewIds) (password serial : String) (profile_json : Json) where
  -- After the check of the password: the exit status.
  unfoldable pub seed_rows : Exec Session ℕ
  seed_rows = do
    company_id ← seed_company now ids.company
    site_id ← seed_site now ids.site company_id
    user_id ← seed_user now ids.user
    seed_role now ids.role user_id company_id
    gateway_id ← seed_gateway now ids.gateway serial company_id site_id
    seed_permission now ids.permission user_id gateway_id
    profile_id ← seed_profile now ids.profile profile_json
    sensor_ch_id ← seed_sensor now ids.sensor gateway_id profile_id
    vent ← seed_actuator now ids.vent gateway_id "relay-vent" "환기팬" "GPIO17" 600
    spray ← seed_actuator now ids.spray gateway_id "relay-spray" "살균기" "GPIO27" 60
    commit
    pure 0

  -- `main`
  unfoldable pub main : Exec Session ℕ
  main = if password == "" then pure 1 else seed_rows
