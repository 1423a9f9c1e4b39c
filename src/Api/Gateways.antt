-- ===== src/Api/Gateways.antt =====
-- server/app/routers/gateways.py: registration, listing, change and removal of gateways.
pub mod Registration
pub mod Removal
use rpi_io_t_server_project.Base.{
  ℕ, String, Bool, true, false, not, ◌&&◌, ◌||◌, leb, any, select, delete, Option, none, some, List,
  [], ◌∷◌, ◌++◌, ◌==◌, nat_eq, string_eq, if◌then◌else◌,
}
use rpi_io_t_server_project.Base.Int.{ℤ, pos}
use rpi_io_t_server_project.Base.Sort.{order_by}
use rpi_io_t_server_project.Base.Exec.{
  Exec, Result, ok, raised, http, integrity_error, ◌>>=◌, ◌>>◌, pure, raise, lift,
}
use rpi_io_t_server_project.Columns.{text_value}
use rpi_io_t_server_project.Models.{
  Db, Gateway, Site, User, Company, GatewayProfile, UserGatewayPermission, SensorChannel,
  ActuatorChannel, Command,
}
use rpi_io_t_server_project.Platform.{Platform, Uuid, Time}
use rpi_io_t_server_project.Schemas.{GatewayIn, GatewayPatch, is_slug, char_count}
use rpi_io_t_server_project.Session.{Session, read, write, write_checked, commit}
use rpi_io_t_server_project.Worker.Heartbeat.{update_gateway}
use rpi_io_t_server_project.Worker.Topic.{slug_char, all_chars, is_empty}
use rpi_io_t_server_project.Api.Permission.{check_perm}

-- A nullable foreign key.
abbrev refers : (Uuid → Bool) → Option Uuid → Bool
refers exists none = true
refers exists (some id) = exists id

-- `ck_gateways_serial_number_format` of server/alembic/versions/0002_channel_slug.py
unfoldable pub serial_ok : String → Bool
unfolding is_slug
serial_ok = is_slug

-- The keys of a new gateway: server/alembic/versions/0001_initial.py and 0002_channel_slug.py.
unfoldable pub gateway_fits : Gateway → Db → Bool
unfolding serial_ok
gateway_fits gw db =
    not (any (λ (g : Gateway). g.id == gw.id || g.serial_number == gw.serial_number) db.gateways)
    && (serial_ok gw.serial_number
        && (any (λ (c : Company). c.id == gw.company_id) db.companies
            && (refers (λ k. any (λ (s : Site). s.id == k) db.sites) gw.site_id
                && refers (λ k. any (λ (g : GatewayProfile). g.id == k) db.gateway_profiles)
                    gw.gateway_profile_id)))

-- The keys of a new permission. Its gateway is no foreign key.
unfoldable pub permission_fits : UserGatewayPermission → Db → Bool
permission_fits row db =
    not (
      any
        (λ (r : UserGatewayPermission).
          r.id == row.id
          || (r.user_id == row.user_id
              && (r.gateway_id == row.gateway_id && r.permission == row.permission)))
        db.user_gateway_permissions)
    && any (λ (u : User). u.id == row.user_id) db.users

unfoldable pub new_gateway : Uuid → Time → GatewayIn → Gateway
new_gateway gateway_id now body = record {
  id = gateway_id;
  serial_number = body.serial_number;
  name = body.name;
  company_id = body.company_id;
  site_id = body.site_id;
  gateway_profile_id = body.gateway_profile_id;
  status = "offline";
  firmware_version = none;
  app_version = none;
  config_version = pos 0;
  last_seen_at = none;
  registered_at = now;
}

-- `register_gateway`: who registers a gateway is its first admin. The two UUIDs are new.
unfoldable pub register_gateway : Uuid → Uuid → Time → Uuid → GatewayIn → Exec Session Gateway
unfolding gateway_fits permission_fits new_gateway
register_gateway gateway_id perm_id now user_id body =
    if not (is_slug body.serial_number) then raise (http 422) else do
      let gateway = new_gateway gateway_id now body
      let perm : UserGatewayPermission = record {
        id = perm_id;
        user_id = user_id;
        gateway_id = gateway_id;
        permission = "admin";
        created_at = now;
      }
      write_checked (gateway_fits gateway)
          (λ db. record db { gateways = db.gateways ++ gateway ∷ [] })
      write_checked (permission_fits perm)
          (λ db. record db { user_gateway_permissions = db.user_gateway_permissions ++ perm ∷ [] })
      commit
      pure gateway

-- `list_gateways`: the gateways for which the user has some permission, the newest first.
unfoldable pub list_gateways : Uuid → Exec Session (List Gateway)
list_gateways user_id = read (λ db.
    order_by (λ a b. leb b.registered_at a.registered_at)
      (select
        (λ g.
          any (λ (r : UserGatewayPermission). r.gateway_id == g.id && r.user_id == user_id)
            db.user_gateway_permissions)
        db.gateways))

unfoldable pub show_gateway : Uuid → Uuid → Exec Session Gateway
show_gateway user_id gateway_id = check_perm user_id gateway_id "view"

-- What `get_gateway_state` reports, before it is written as text.
pub record GatewayState : Type 0 where
  pub gateway_id : Uuid
  pub status : String
  pub last_seen_at : Option Time
  pub firmware_version : Option String
  pub app_version : Option String
  pub config_version : ℤ
  pub now : Time

unfoldable pub get_gateway_state : Time → Uuid → Uuid → Exec Session GatewayState
get_gateway_state now user_id gateway_id = do
  gw ← check_perm user_id gateway_id "view"
  pure (record {
    gateway_id = gw.id;
    status = gw.status;
    last_seen_at = gw.last_seen_at;
    firmware_version = gw.firmware_version;
    app_version = gw.app_version;
    config_version = gw.config_version;
    now = now;
  })

-- One assignment of the loop over the fields of a patch.
unfoldable pub assigned : {A : Type 0} → Option A → A → A
assigned none old = old
assigned (some new) old = new

-- The columns that a patch may set.
pub record Patched : Type 0 where
  pub name : String
  pub site_id : Option Uuid
  pub gateway_profile_id : Option Uuid
  pub status : String
  pub firmware_version : Option String
  pub app_version : Option String

abbrev pub set_patched : Patched → Gateway → Gateway
set_patched columns g = record g {
  name = columns.name;
  site_id = columns.site_id;
  gateway_profile_id = columns.gateway_profile_id;
  status = columns.status;
  firmware_version = columns.firmware_version;
  app_version = columns.app_version;
}

module _ (p : Platform) where
  -- A NOT NULL text column that a patch sets.
  unfoldable pub patch_text : Option ℕ → Option (Option String) → String → Result String
  patch_text n none old = ok old
  patch_text n (some none) old = raised integrity_error
  patch_text n (some (some s)) old = text_value p n s

  -- A text column that may be NULL.
  unfoldable pub patch_nullable :
      Option ℕ → Option (Option String) → Option String → Result (Option String)
  patch_nullable n none old = ok old
  patch_nullable n (some none) old = ok none
  patch_nullable n (some (some s)) old = elim (text_value p n s) [
    | ok t ↦ ok (some t)
    | raised e ↦ raised e
  ]

  -- The columns that a patch leaves a row with.
  unfoldable pub patched : GatewayPatch → Gateway → Exec Session Patched
  unfolding assigned patch_text patch_nullable
  patched body gw = do
    name ← lift (patch_text none body.name gw.name)
    status ← lift (patch_text (some 32) body.status gw.status)
    firmware ← lift (patch_nullable (some 64) body.firmware_version gw.firmware_version)
    app ← lift (patch_nullable (some 64) body.app_version gw.app_version)
    pure (record {
      name = name;
      site_id = assigned body.site_id gw.site_id;
      gateway_profile_id = assigned body.gateway_profile_id gw.gateway_profile_id;
      status = status;
      firmware_version = firmware;
      app_version = app;
    })

  -- `update_gateway`
  unfoldable pub patch_gateway : Uuid → Uuid → GatewayPatch → Exec Session (Unit {0})
  unfolding update_gateway
  patch_gateway user_id gateway_id body = do
    gw ← check_perm user_id gateway_id "configure"
    columns ← patched body gw
    write_checked
        (λ db.
          refers (λ k. any (λ (s : Site). s.id == k) db.sites) columns.site_id
          && refers (λ k. any (λ (g : GatewayProfile). g.id == k) db.gateway_profiles)
              columns.gateway_profile_id)
        (update_gateway gateway_id (set_patched columns))
    commit

unfoldable pub refers_to : Uuid → Option Uuid → Bool
refers_to id none = false
refers_to id (some k) = k == id

-- What a DELETE of a gateway meets: commands refer to it, and to its actuators, by foreign keys.
unfoldable pub in_use : Uuid → Db → Bool
unfolding refers_to
in_use gateway_id db =
    any
      (λ (c : Command).
        c.gateway_id == gateway_id
        || any
            (λ (a : ActuatorChannel).
              a.gateway_id == gateway_id && refers_to a.id c.actuator_channel_id)
            db.actuator_channels)
      db.commands

-- The channels go with their gateway; the permissions stay.
unfoldable pub remove_gateway : Uuid → Db → Db
remove_gateway gateway_id db = record db {
  gateways = delete (λ (g : Gateway). g.id == gateway_id) db.gateways;
  sensor_channels = delete (λ (c : SensorChannel). c.gateway_id == gateway_id) db.sensor_channels;
  actuator_channels =
      delete (λ (c : ActuatorChannel). c.gateway_id == gateway_id) db.actuator_channels;
}

-- `delete_gateway`
unfoldable pub delete_gateway : Uuid → Uuid → Exec Session (Unit {0})
unfolding in_use remove_gateway
delete_gateway user_id gateway_id = do
  gw ← check_perm user_id gateway_id "admin"
  write_checked (λ db. not (in_use gateway_id db)) (remove_gateway gateway_id)
  commit
