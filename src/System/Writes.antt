-- ===== src/System/Writes.antt =====
-- The statements of the program that write to the database, with the constraints that PostgreSQL has
-- checked when they succeed.
use rpi_io_t_server_project.Base.{
  ℕ, ◌+◌, String, ◌≡◌, true, false, any, delete, some, [], ◌∷◌, ◌++◌, ◌==◌, nat_eq, string_eq,
  pair_eq,
}
use rpi_io_t_server_project.Models.{
  Db, Company, Site, Gateway, SensorProfile, SensorChannel, ActuatorChannel, Command, Telemetry,
  TelemetryLatest, UserGatewayPermission,
}
use rpi_io_t_server_project.Platform.{Uuid, Time}
use rpi_io_t_server_project.Worker.Heartbeat.{update_gateway}
use rpi_io_t_server_project.Worker.CommandResponse.{update_command}
use rpi_io_t_server_project.Worker.Telemetry.Upsert.{upsert}
use rpi_io_t_server_project.Scheduler.Offline.{mark_offline}
use rpi_io_t_server_project.Scheduler.Timeout.{mark_timeout}
use rpi_io_t_server_project.Api.Gateways.{
  gateway_fits, permission_fits, in_use, refers_to, remove_gateway,
}
use rpi_io_t_server_project.Api.Channels.{sensor_fits, actuator_fits}
use rpi_io_t_server_project.Api.Commands.{command_fits}

-- The change of a row leaves its key columns alone.
pub record KeepsGateway (f : Gateway → Gateway) : Type 0 where
  pub id : (g : Gateway) → (f g).id ≡ g.id
  pub serial : (g : Gateway) → (f g).serial_number ≡ g.serial_number

pub record KeepsCommand (f : Command → Command) : Type 0 where
  pub id : (c : Command) → (f c).id ≡ c.id
  pub gateway : (c : Command) → (f c).gateway_id ≡ c.gateway_id

pub data Write : Db → Db → Type 0 where
  add_company : (d : Db) (c : Company) → Write d (record d { companies = d.companies ++ c ∷ [] })
  add_site : (d : Db) (s : Site) → Write d (record d { sites = d.sites ++ s ∷ [] })
  add_sensor_profile :
      (d : Db) (s : SensorProfile)
      → Write d (record d { sensor_profiles = d.sensor_profiles ++ s ∷ [] })
  add_gateway :
      (d : Db) (g : Gateway)
      → gateway_fits g d ≡ true
      → Write d (record d { gateways = d.gateways ++ g ∷ [] })
  add_permission :
      (d : Db) (r : UserGatewayPermission)
      → permission_fits r d ≡ true
      → Write d (record d { user_gateway_permissions = d.user_gateway_permissions ++ r ∷ [] })
  change_gateway :
      (d : Db) (gateway_id : Uuid) (f : Gateway → Gateway)
      → KeepsGateway f
      → Write d (update_gateway gateway_id f d)
  drop_gateway :
      (d : Db) (gateway_id : Uuid)
      → in_use gateway_id d ≡ false
      → Write d (remove_gateway gateway_id d)
  add_sensor :
      (d : Db) (c : SensorChannel)
      → sensor_fits c d ≡ true
      → Write d (record d { sensor_channels = d.sensor_channels ++ c ∷ [] })
  drop_sensor :
      (d : Db) (channel_id : Uuid)
      → Write d (record d {
        sensor_channels = delete (λ (c : SensorChannel). c.id == channel_id) d.sensor_channels;
      })
  add_actuator :
      (d : Db) (c : ActuatorChannel)
      → actuator_fits c d ≡ true
      → Write d (record d { actuator_channels = d.actuator_channels ++ c ∷ [] })
  drop_actuator :
      (d : Db) (channel_id : Uuid)
      → any (λ (c : Command). refers_to channel_id c.actuator_channel_id) d.commands ≡ false
      → Write d (record d {
        actuator_channels =
            delete (λ (c : ActuatorChannel). c.id == channel_id) d.actuator_channels;
      })
  add_command :
      (d : Db) (c : Command) (channel_id user_id : Uuid)
      → c.actuator_channel_id ≡ some channel_id
      → command_fits c c.gateway_id channel_id user_id d ≡ true
      → Write d (record d { commands = d.commands ++ c ∷ [] })
  change_command :
      (d : Db) (command_id : String) (f : Command → Command)
      → KeepsCommand f
      → Write d (update_command command_id f d)
  add_telemetry :
      (d : Db) (r : Telemetry)
      → r.id ≡ d.next_telemetry_id
      → Write d (record d {
        telemetry = d.telemetry ++ r ∷ [];
        next_telemetry_id = d.next_telemetry_id + 1;
      })
  set_latest :
      (d : Db) (r : TelemetryLatest)
      → Write d (record d { telemetry_latest = upsert r d.telemetry_latest })
  offline_gateways : (d : Db) (threshold : Time) → Write d (mark_offline threshold d)
  timeout_commands : (d : Db) (now : Time) → Write d (mark_timeout now d)
  add_partition :
      (d : Db) (part : (ℕ × ℕ) × (ℕ × ℕ))
      → any (λ (q : (ℕ × ℕ) × (ℕ × ℕ)). q.0 == part.0) d.partitions ≡ false
      → Write d (record d { partitions = d.partitions ++ part ∷ [] })

-- What no statement can make false.
pub record IsClosed (P : Db → Type 0) : Type 0 where
  pub keep : (d d' : Db) → Write d d' → P d → P d'
