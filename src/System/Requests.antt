-- ===== src/System/Requests.antt =====
-- The requests of server/app/routers that concern assets and channels, by the statements that they
-- write.
use rpi_io_t_server_project.Base.{◌≡◌, refl, String, Bool, true, false, any, arith}
use rpi_io_t_server_project.Json.{Json}
use rpi_io_t_server_project.Models.{
  Db, Company, Site, SensorProfile, Gateway, UserGatewayPermission, Company, Gateway,
  UserGatewayPermission, SensorChannel, ActuatorChannel, Command,
}
use rpi_io_t_server_project.Platform.{Platform, Uuid, Time}
use rpi_io_t_server_project.Schemas.{
  CompanyIn, SiteIn, SensorProfileIn, GatewayIn, GatewayPatch, SensorChannelIn, ActuatorChannelIn,
}
use rpi_io_t_server_project.Session.{Session}
use rpi_io_t_server_project.Api.Permission.{check_perm}
use rpi_io_t_server_project.Api.Assets.{create_company, create_site, create_sensor_profile}
use rpi_io_t_server_project.Api.Gateways.{
  Patched, patched, set_patched, gateway_fits, permission_fits, refers_to, register_gateway,
  patch_gateway, delete_gateway, in_use,
}
use rpi_io_t_server_project.Api.Channels.{
  sensor_fits, actuator_fits, add_sensor_channel, add_actuator_channel, delete_sensor_channel,
  delete_actuator_channel, sensor_row, actuator_row,
}
use rpi_io_t_server_project.Api.Commands.Safety.{check_perm_reads}
use rpi_io_t_server_project.System.Writes
use rpi_io_t_server_project.System.Writes.{Write, IsClosed, KeepsGateway}
use rpi_io_t_server_project.System.Keeps.{KeepsDb}

module _ (P : Db → Type 0) (closed : IsClosed P) where
  pub check_perm-KeepsDb : (u g : Uuid) (required : String) → KeepsDb P (check_perm u g required)
  check_perm-KeepsDb u g required = record {
    at = λ s good. rw (check_perm_reads u g required s) good;
  }

  module _ (p : Platform) where
    patched_reads : (body : GatewayPatch) (gw : Gateway) (s : Session) → (patched p body gw s).1 ≡ s
    unfolding patched
    patched_reads body gw s = ground arith

    sensor_row_reads :
        (id gateway_id : Uuid) (now : Time) (body : SensorChannelIn) (s : Session)
        → (sensor_row p id gateway_id now body s).1 ≡ s
    unfolding sensor_row
    sensor_row_reads id gateway_id now body s = ground arith

    actuator_row_reads :
        (id gateway_id : Uuid) (now : Time) (body : ActuatorChannelIn) (s : Session)
        → (actuator_row p id gateway_id now body s).1 ≡ s
    unfolding actuator_row
    actuator_row_reads id gateway_id now body s = ground arith

    pub create_company-KeepsDb :
        (id : Uuid) (now : Time) (body : CompanyIn) → KeepsDb P (create_company p id now body)
    unfolding create_company
    create_company-KeepsDb id now body = record {
      at = λ s good.
          grind (arith, λ (d : Db) (c : Company). closed.keep d _ (Writes.add_company d c));
    }

    pub create_site-KeepsDb :
        (id : Uuid) (now : Time) (body : SiteIn) → KeepsDb P (create_site id now body)
    unfolding create_site
    create_site-KeepsDb id now body = record {
      at = λ s good. grind (arith, λ (d : Db) (c : Site). closed.keep d _ (Writes.add_site d c));
    }

    pub register_gateway-KeepsDb :
        (id perm_id : Uuid) (now : Time) (user_id : Uuid) (body : GatewayIn)
        → KeepsDb P (register_gateway id perm_id now user_id body)
    unfolding register_gateway
    register_gateway-KeepsDb id perm_id now user_id body = record {
      at = λ s good. grind (
        arith,
        λ (d : Db) (g : Gateway) (h : gateway_fits g d ≡ true).
            closed.keep d _ (Writes.add_gateway d g h),
        λ (d : Db) (r : UserGatewayPermission) (h : permission_fits r d ≡ true).
            closed.keep d _ (Writes.add_permission d r h),
      );
    }

    pub delete_gateway-KeepsDb :
        (user_id gateway_id : Uuid) → KeepsDb P (delete_gateway user_id gateway_id)
    unfolding delete_gateway
    delete_gateway-KeepsDb user_id gateway_id = record {
      at = λ s good. grind (
        arith,
        check_perm_reads,
        λ (d : Db) (k : Uuid) (h : in_use k d ≡ false). closed.keep d _ (Writes.drop_gateway d k h),
      );
    }

    pub add_sensor_channel-KeepsDb :
        (id : Uuid) (now : Time) (user_id gateway_id : Uuid) (body : SensorChannelIn)
        → KeepsDb P (add_sensor_channel p id now user_id gateway_id body)
    unfolding add_sensor_channel
    add_sensor_channel-KeepsDb id now user_id gateway_id body = record {
      at = λ s good. grind (
        arith,
        check_perm_reads,
        sensor_row_reads,
        λ (d : Db) (c : SensorChannel) (h : sensor_fits c d ≡ true).
            closed.keep d _ (Writes.add_sensor d c h),
      );
    }

    pub add_actuator_channel-KeepsDb :
        (id : Uuid) (now : Time) (user_id gateway_id : Uuid) (body : ActuatorChannelIn)
        → KeepsDb P (add_actuator_channel p id now user_id gateway_id body)
    unfolding add_actuator_channel
    add_actuator_channel-KeepsDb id now user_id gateway_id body = record {
      at = λ s good. grind (
        arith,
        check_perm_reads,
        actuator_row_reads,
        λ (d : Db) (c : ActuatorChannel) (h : actuator_fits c d ≡ true).
            closed.keep d _ (Writes.add_actuator d c h),
      );
    }

    pub delete_sensor_channel-KeepsDb :
        (user_id channel_id : Uuid) → KeepsDb P (delete_sensor_channel user_id channel_id)
    unfolding delete_sensor_channel
    delete_sensor_channel-KeepsDb user_id channel_id = record {
      at = λ s good.
          grind (
            arith,
            check_perm_reads,
            λ (d : Db). closed.keep d _ (Writes.drop_sensor d channel_id),
          );
    }

    pub delete_actuator_channel-KeepsDb :
        (user_id channel_id : Uuid) → KeepsDb P (delete_actuator_channel user_id channel_id)
    unfolding delete_actuator_channel
    delete_actuator_channel-KeepsDb user_id channel_id = record {
      at = λ s good. grind (
        arith,
        check_perm_reads,
        λ (d : Db) (k : Uuid)
              (h : any (λ (c : Command). refers_to k c.actuator_channel_id) d.commands ≡ false).
            closed.keep d _ (Writes.drop_actuator d k h),
      );
    }

    set_patched-KeepsGateway : (columns : Patched) → KeepsGateway (set_patched columns)
    set_patched-KeepsGateway columns = record { id = λ g. refl; serial = λ g. refl }

    pub patch_gateway-KeepsDb :
        (user_id gateway_id : Uuid) (body : GatewayPatch)
        → KeepsDb P (patch_gateway p user_id gateway_id body)
    unfolding patch_gateway
    patch_gateway-KeepsDb user_id gateway_id body = record {
      at = λ s good. grind (
        arith,
        check_perm_reads,
        patched_reads,
        λ (d : Db) (columns : Patched). closed.keep d _ (
            Writes.change_gateway d gateway_id (set_patched columns)
              (set_patched-KeepsGateway columns)),
      );
    }

    pub create_sensor_profile-KeepsDb :
        (schema_valid : Json → Bool) (name_le : String → String → Bool) (id : Uuid) (now : Time)
        (body : SensorProfileIn)
        → KeepsDb P (create_sensor_profile p schema_valid name_le id now body)
    unfolding create_sensor_profile
    create_sensor_profile-KeepsDb schema_valid name_le id now body = record {
      at = λ s good.
          grind (
            arith,
            λ (d : Db) (c : SensorProfile). closed.keep d _ (Writes.add_sensor_profile d c),
          );
    }
