-- ===== src/Migrations/Initial/Identity.antt =====
-- server/alembic/versions/0001_initial.py: the tables that Models/Identity.antt has the rows of.
use rpi_io_t_server_project.Base.{none, some, true, [], ◌∷◌}
use rpi_io_t_server_project.Migrations.Ddl.{
  Table, required, optional, uuid, text, varchar, timestamptz, float,
}

-- `companies`
abbrev pub companies_table : Table
companies_table = record {
  name = "companies";
  columns =
      (record (required "id" uuid) { primary_key = true })
      ∷ (required "name" text)
      ∷ (required "company_type" (varchar 32))
      ∷ (record (required "status" (varchar 32)) { default = some "active" })
      ∷ (record (optional "created_at" timestamptz) { default = some "now()" })
      ∷ (record (optional "updated_at" timestamptz) { default = some "now()" })
      ∷ [];
  uniques = [];
  checks = [];
  indexes = [];
  default_partition = none;
  partitions = [];
}

-- `sites`
abbrev pub sites_table : Table
sites_table = record {
  name = "sites";
  columns =
      (record (required "id" uuid) { primary_key = true })
      ∷ (record (required "company_id" uuid) { references = some ("companies", "id") })
      ∷ (required "name" text)
      ∷ (optional "address" text)
      ∷ (optional "latitude" float)
      ∷ (optional "longitude" float)
      ∷ (record (optional "created_at" timestamptz) { default = some "now()" })
      ∷ [];
  uniques = [];
  checks = [];
  indexes = [];
  default_partition = none;
  partitions = [];
}

-- `users`
abbrev pub users_table : Table
users_table = record {
  name = "users";
  columns =
      (record (required "id" uuid) { primary_key = true })
      ∷ (record (required "keycloak_user_id" text) { unique = true })
      ∷ (record (required "email" text) { unique = true })
      ∷ (required "name" text)
      ∷ (record (required "status" (varchar 32)) { default = some "active" })
      ∷ (record (optional "created_at" timestamptz) { default = some "now()" })
      ∷ [];
  uniques = [];
  checks = [];
  indexes = [];
  default_partition = none;
  partitions = [];
}

-- `user_company_roles`
abbrev pub user_company_roles_table : Table
user_company_roles_table = record {
  name = "user_company_roles";
  columns =
      (record (required "id" uuid) { primary_key = true })
      ∷ (record (required "user_id" uuid) { references = some ("users", "id") })
      ∷ (record (required "company_id" uuid) { references = some ("companies", "id") })
      ∷ (required "role" (varchar 64))
      ∷ (record (optional "created_at" timestamptz) { default = some "now()" })
      ∷ [];
  uniques = (none, "user_id" ∷ "company_id" ∷ "role" ∷ []) ∷ [];
  checks = [];
  indexes = [];
  default_partition = none;
  partitions = [];
}

-- `user_gateway_permissions`
abbrev pub user_gateway_permissions_table : Table
user_gateway_permissions_table = record {
  name = "user_gateway_permissions";
  columns =
      (record (required "id" uuid) { primary_key = true })
      ∷ (record (required "user_id" uuid) { references = some ("users", "id") })
      ∷ (required "gateway_id" uuid)
      ∷ (required "permission" (varchar 32))
      ∷ (record (optional "created_at" timestamptz) { default = some "now()" })
      ∷ [];
  uniques = (none, "user_id" ∷ "gateway_id" ∷ "permission" ∷ []) ∷ [];
  checks = [];
  indexes = [];
  default_partition = none;
  partitions = [];
}
