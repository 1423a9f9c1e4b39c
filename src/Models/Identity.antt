-- ===== src/Models/Identity.antt =====
-- server/app/models.py: who may do what. Users, companies, sites, roles and permissions.
use rpi_io_t_server_project.Base.{String, Option}
use rpi_io_t_server_project.Json.{Double}
use rpi_io_t_server_project.Platform.{Uuid, Time}

-- A row of `companies`.
pub record Company : Type 0 where
  pub id : Uuid
  pub name : String
  pub company_type : String
  pub status : String
  pub created_at : Time
  pub updated_at : Time

-- A row of `sites`.
pub record Site : Type 0 where
  pub id : Uuid
  pub company_id : Uuid
  pub name : String
  pub address : Option String
  pub latitude : Option Double
  pub longitude : Option Double
  pub created_at : Time

-- A row of `users`.
pub record User : Type 0 where
  pub id : Uuid
  pub keycloak_user_id : String
  pub email : String
  pub name : String
  pub status : String
  pub created_at : Time

-- A row of `user_company_roles`.
pub record UserCompanyRole : Type 0 where
  pub id : Uuid
  pub user_id : Uuid
  pub company_id : Uuid
  pub role : String
  pub created_at : Time

-- A row of `user_gateway_permissions`.
-- The permission is view, control, configure, maintain or admin; the column takes any text.
pub record UserGatewayPermission : Type 0 where
  pub id : Uuid
  pub user_id : Uuid
  pub gateway_id : Uuid
  pub permission : String
  pub created_at : Time
