-- ===== src/Api/Channels.antt =====
-- server/app/routers/sensor_channels.py and actuator_channels.py: the channels of a gateway. The
-- constraints are those of server/alembic/versions/0001_initial.py and 0002_channel_slug.py.
use rpi_io_t_server_project.Base.{
  ℕ, String, Bool, not, ◌&&◌, ◌||◌, leb, any, find?, select, delete, Option, none, some, List, [],
  ◌∷◌, ◌++◌, ◌==◌, nat_eq, string_eq, if◌then◌else◌,
}
use rpi_io_t_server_project.Base.Sort.{order_by}
use rpi_io_t_server_project.Base.Int.{ℤ}
use rpi_io_t_server_project.Base.Exec.{
  Exec, Result, ok, raised, http, ◌>>=◌, ◌>>◌, pure, raise, lift,
}
use rpi_io_t_server_project.Columns.{text_value, int4}
use rpi_io_t_server_project.Models.{
  Db, Gateway, SensorChannel, SensorProfile, ActuatorChannel, Command,
}
use rpi_io_t_server_project.Platform.{Platform, Uuid, Time}
use rpi_io_t_server_project.Schemas.{SensorChannelIn, ActuatorChannelIn, is_slug, valid_actuator}
use rpi_io_t_server_project.Session.{Session, read, write_checked, write, commit}
use rpi_io_t_server_project.Api.Permission.{check_perm}
use rpi_io_t_server_project.Api.Gateways.{refers_to}

unfoldable pub sensor_fits : SensorChannel → Db → Bool
sensor_fits ch db =
    not (
      any
        (λ (c : SensorChannel).
          c.id == ch.id || (c.gateway_id == ch.gateway_id && c.slug == ch.slug))
        db.sensor_channels)
    && (is_slug ch.slug
        && (any (λ (g : Gateway). g.id == ch.gateway_id) db.gateways
            && any (λ (s : SensorProfile). s.id == ch.sensor_profile_id) db.sensor_profiles))

unfoldable pub actuator_fits : ActuatorChannel → Db → Bool
actuator_fits ch db =
    not (
      any
        (λ (c : ActuatorChannel).
          c.id == ch.id || (c.gateway_id == ch.gateway_id && c.slug == ch.slug))
        db.actuator_channels)
    && (is_slug ch.slug && any (λ (g : Gateway). g.id == ch.gateway_id) db.gateways)

module _ (p : Platform) where
  unfoldable pub optional_text : ℕ → Option String → Result (Option String)
  optional_text n none = ok none
  optional_text n (some s) = elim (text_value p (some n) s) [
    | ok t ↦ ok (some t)
    | raised e ↦ raised e
  ]

  unfoldable pub optional_int : Option ℤ → Result (Option ℤ)
  optional_int none = ok none
  optional_int (some n) = elim (int4 n) [ ok k ↦ ok (some k) | raised e ↦ raised e ]

  -- The columns of a new sensor channel, as the database keeps them.
  unfoldable pub sensor_row : Uuid → Uuid → Time → SensorChannelIn → Exec Session SensorChannel
  unfolding optional_text optional_int
  sensor_row channel_id gateway_id now body = do
    interface_name ← lift (text_value p (some 64) body.interface_name)
    protocol ← lift (text_value p (some 32) body.protocol)
    address ← lift (optional_text 64 body.address)
    slave_id ← lift (optional_int body.slave_id)
    polling ← lift (int4 body.polling_interval_sec)
    pure (record {
      id = channel_id;
      gateway_id = gateway_id;
      slug = body.slug;
      sensor_profile_id = body.sensor_profile_id;
      display_name = body.display_name;
      interface_name = interface_name;
      protocol = protocol;
      address = address;
      slave_id = slave_id;
      polling_interval_sec = polling;
      enabled = body.enabled;
      config = body.config;
      created_at = now;
    })

  unfoldable pub add_sensor_channel :
      Uuid → Time → Uuid → Uuid → SensorChannelIn → Exec Session SensorChannel
  add_sensor_channel channel_id now user_id gateway_id body =
      if not (is_slug body.slug) then raise (http 422) else do
        gw ← check_perm user_id gateway_id "configure"
        channel ← sensor_row channel_id gateway_id now body
        write_checked (sensor_fits channel)
            (λ db. record db { sensor_channels = db.sensor_channels ++ channel ∷ [] })
        commit
        pure channel

  unfoldable pub actuator_row :
      Uuid → Uuid → Time → ActuatorChannelIn → Exec Session ActuatorChannel
  actuator_row channel_id gateway_id now body = do
    hardware ← lift (text_value p (some 64) body.hardware_channel)
    default_state ← lift (text_value p (some 8) body.default_state)
    pure (record {
      id = channel_id;
      gateway_id = gateway_id;
      slug = body.slug;
      display_name = body.display_name;
      actuator_type = body.actuator_type;
      hardware_channel = hardware;
      default_state = default_state;
      current_state = none;
      enabled = body.enabled;
      safety_config = body.safety_config;
      created_at = now;
    })

  unfoldable pub add_actuator_channel :
      Uuid → Time → Uuid → Uuid → ActuatorChannelIn → Exec Session ActuatorChannel
  add_actuator_channel channel_id now user_id gateway_id body =
      if not (valid_actuator body) then raise (http 422) else do
        gw ← check_perm user_id gateway_id "configure"
        channel ← actuator_row channel_id gateway_id now body
        write_checked (actuator_fits channel)
            (λ db. record db { actuator_channels = db.actuator_channels ++ channel ∷ [] })
        commit
        pure channel

unfoldable pub list_sensor_channels : Uuid → Uuid → Exec Session (List SensorChannel)
list_sensor_channels user_id gateway_id = do
  gw ← check_perm user_id gateway_id "view"
  read (λ db.
      order_by (λ a b. leb a.created_at b.created_at)
        (select (λ c. c.gateway_id == gateway_id) db.sensor_channels))

unfoldable pub list_actuator_channels : Uuid → Uuid → Exec Session (List ActuatorChannel)
list_actuator_channels user_id gateway_id = do
  gw ← check_perm user_id gateway_id "view"
  read (λ db.
      order_by (λ a b. leb a.created_at b.created_at)
        (select (λ c. c.gateway_id == gateway_id) db.actuator_channels))

-- `delete_sensor_channel`: no table refers to a sensor channel.
unfoldable pub delete_sensor_channel : Uuid → Uuid → Exec Session (Unit {0})
delete_sensor_channel user_id channel_id = do
  found ← read (λ db. find? (λ (c : SensorChannel). c.id == channel_id) db.sensor_channels)
  elim found [
    | none ↦ raise (http 404)
    | some channel ↦ do
      gw ← check_perm user_id channel.gateway_id "configure"
      write (λ db. record db {
        sensor_channels = delete (λ (c : SensorChannel). c.id == channel_id) db.sensor_channels;
      })
      commit
  ]

-- `delete_actuator_channel`: refused while a command refers to the channel.
unfoldable pub delete_actuator_channel : Uuid → Uuid → Exec Session (Unit {0})
unfolding refers_to
delete_actuator_channel user_id channel_id = do
  found ← read (λ db. find? (λ (c : ActuatorChannel). c.id == channel_id) db.actuator_channels)
  elim found [
    | none ↦ raise (http 404)
    | some channel ↦ do
      gw ← check_perm user_id channel.gateway_id "configure"
      write_checked
          (λ db.
            not (any (λ (c : Command). refers_to channel_id c.actuator_channel_id) db.commands))
          (λ db. record db {
            actuator_channels =
                delete (λ (c : ActuatorChannel). c.id == channel_id) db.actuator_channels;
          })
      commit
  ]
