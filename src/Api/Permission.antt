-- ===== src/Api/Permission.antt =====
-- `_check_perm` of server/app/routers/gateways.py.
pub mod Access
pub mod Ambiguous
use rpi_io_t_server_project.Base.{
  ℕ, String, Bool, ◌||◌, ◌&&◌, Option, none, some, select, List, ◌==◌, nat_eq, string_eq,
}
use rpi_io_t_server_project.Base.Exec.{Exec, http, ◌>>=◌, pure, raise, lift}
use rpi_io_t_server_project.Models.{Db, Gateway, UserGatewayPermission}
use rpi_io_t_server_project.Platform.{Uuid}
use rpi_io_t_server_project.Session.{Session, read, scalar_one_or_none}
use rpi_io_t_server_project.Worker.Heartbeat.{get_gateway}

-- The WHERE clause: the rows that give a user the permission, or the permission `admin`.
unfoldable pub grants : Uuid → Uuid → String → UserGatewayPermission → Bool
grants user_id gateway_id required row =
    row.user_id == user_id
    && (row.gateway_id == gateway_id && (row.permission == required || row.permission == "admin"))

unfoldable pub granting : Uuid → Uuid → String → Db → List UserGatewayPermission
unfolding grants
granting user_id gateway_id required db =
    select (grants user_id gateway_id required) db.user_gateway_permissions

-- The gateway, for a user who has the permission; 404 if there is none, and 403 for other users.
unfoldable pub check_perm : Uuid → Uuid → String → Exec Session Gateway
unfolding get_gateway granting
check_perm user_id gateway_id required = do
  gateway ← read (get_gateway gateway_id)
  elim gateway [
    | none ↦ raise (http 404)
    | some gw ↦ do
      rows ← read (granting user_id gateway_id required)
      row ← lift (scalar_one_or_none rows)
      elim row [ none ↦ raise (http 403) | some _ ↦ pure gw ]
  ]
