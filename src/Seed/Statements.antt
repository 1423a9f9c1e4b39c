-- ===== src/Seed/Statements.antt =====
-- deploy/scripts/sim-seed.py: its queries, and the two shapes of its INSERT.
use rpi_io_t_server_project.Base.{
  String, Bool, ◌&&◌, any, find?, Option, none, some, ◌==◌, nat_eq, string_eq, if◌then◌else◌,
}
use rpi_io_t_server_project.Base.Exec.{Exec, ◌>>=◌, ◌>>◌, pure}
use rpi_io_t_server_project.Models.{
  Db, Company, Site, User, UserCompanyRole, UserGatewayPermission, Gateway, SensorProfile,
  SensorChannel, ActuatorChannel,
}
use rpi_io_t_server_project.Platform.{Uuid}
use rpi_io_t_server_project.Session.{Session, read, write_checked}

-- `SELECT id ...`: the id of the first row.
abbrev pub id_of : {A : Type 0} → (A → Uuid) → Option A → Option Uuid
id_of id none = none
id_of id (some a) = some (id a)

-- SELECT, and INSERT if there is no row: the id of the row either way.
unfoldable pub find_or_insert :
    (Db → Option Uuid) → Uuid → (Db → Bool) → (Db → Db) → Exec Session Uuid
find_or_insert find new_id fits insert = do
  row ← read find
  elim row [ some id ↦ pure id | none ↦ do write_checked fits insert; pure new_id ]

-- INSERT ... ON CONFLICT DO NOTHING.
unfoldable pub insert_unless : (Db → Bool) → (Db → Bool) → (Db → Db) → Exec Session (Unit {0})
insert_unless conflict fits insert = do
  taken ← read conflict
  if taken then pure tt else write_checked fits insert

unfoldable pub find_company : Db → Option Uuid
find_company d = id_of (λ c. c.id) (find? (λ (c : Company). c.name == "IoT Sim Co.") d.companies)

unfoldable pub find_site : Uuid → Db → Option Uuid
find_site company_id d =
    id_of (λ s. s.id)
      (find? (λ (s : Site). s.company_id == company_id && s.name == "Sim Farm") d.sites)

unfoldable pub find_user : Db → Option Uuid
find_user d = id_of (λ u. u.id) (find? (λ (u : User). u.email == "admin@sim.local") d.users)

unfoldable pub has_role : Uuid → Uuid → Db → Bool
has_role user_id company_id d =
    any
      (λ (r : UserCompanyRole).
        r.user_id == user_id && (r.company_id == company_id && r.role == "company_admin"))
      d.user_company_roles

unfoldable pub find_gateway : String → Db → Option Uuid
find_gateway serial d =
    id_of (λ g. g.id) (find? (λ (g : Gateway). g.serial_number == serial) d.gateways)

unfoldable pub has_permission : Uuid → Uuid → Db → Bool
has_permission user_id gateway_id d =
    any
      (λ (r : UserGatewayPermission).
        r.user_id == user_id && (r.gateway_id == gateway_id && r.permission == "admin"))
      d.user_gateway_permissions

unfoldable pub find_profile : Db → Option Uuid
find_profile d =
    id_of (λ s. s.id) (find? (λ (s : SensorProfile). s.name == "env-6in1-sim") d.sensor_profiles)

unfoldable pub find_sensor : Uuid → Db → Option Uuid
find_sensor gateway_id d =
    id_of (λ c. c.id)
      (find? (λ (c : SensorChannel). c.gateway_id == gateway_id && c.slug == "env-1")
        d.sensor_channels)

unfoldable pub find_actuator : Uuid → String → Db → Option Uuid
find_actuator gateway_id slug d =
    id_of (λ c. c.id)
      (find? (λ (c : ActuatorChannel). c.gateway_id == gateway_id && c.slug == slug)
        d.actuator_channels)
