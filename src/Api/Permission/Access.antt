-- ===== src/Api/Permission/Access.antt =====
-- Who passes the permission check.
use rpi_io_t_server_project.Base.{
  ◌≡◌, ◌≢◌, sym, refl, String, true, ◌⊎◌, inl, inr, none, some, List, [], ◌∷◌, nat_eq, string_eq,
  eq_iff, arith, select, Bool-cases,
}
use rpi_io_t_server_project.Base.Exec.{ok, raised, multiple_results}
use rpi_io_t_server_project.Models.{Db, Gateway, UserGatewayPermission}
use rpi_io_t_server_project.Platform.{Uuid}
use rpi_io_t_server_project.Session.{Session, scalar_one_or_none}
use rpi_io_t_server_project.Worker.Heartbeat.{get_gateway}
use rpi_io_t_server_project.Api.Permission.{grants, granting, check_perm}

-- The row is one of the table.
abbrev pub IsRow : {A : Type 0} → A → List A → Type 0
IsRow x [] = ⊥
IsRow x (y ∷ ys) = (x ≡ y) ⊎ IsRow x ys

module _ (user_id gateway_id : Uuid) (required : String) where
  -- The row gives the user the permission on the gateway, or `admin`.
  abbrev pub Grants : UserGatewayPermission → Type 0
  Grants row =
      (row.user_id ≡ user_id)
      × (row.gateway_id ≡ gateway_id)
      × ((row.permission ≡ required) ⊎ (row.permission ≡ "admin"))

  grants_sound :
      (row : UserGatewayPermission) → grants user_id gateway_id required row ≡ true → Grants row
  unfolding grants
  grants_sound row h = ground (arith, eq_iff row.permission required, eq_iff row.permission "admin")

  -- A row that a query selects is a row of the table that passes its test.
  select_sound :
      (rows : List UserGatewayPermission) (row : UserGatewayPermission)
      (rest : List UserGatewayPermission)
      → select (grants user_id gateway_id required) rows ≡ row ∷ rest
      → IsRow row rows × (grants user_id gateway_id required row ≡ true)
  unfolding select
  select_sound [] row rest h = cc
  select_sound (r ∷ rows) row rest h = elim (Bool-cases (grants user_id gateway_id required r)) [
    | inl hit ↦ let e : r ≡ row = ground arith in (inl (sym e), rw (sym e) hit)
    | inr miss ↦ let (m, g) = select_sound rows row rest (ground arith) in (inr m, g)
  ]

  -- What the check has found when it passes: the gateway, and one row that gives the permission.
  pub record IsGranted (db : Db) (gw : Gateway) : Type 0 where
    pub found : get_gateway gateway_id db ≡ some gw
    pub row : UserGatewayPermission
    pub listed : IsRow row db.user_gateway_permissions
    pub gives : Grants row

  IsGranted-by :
      (db : Db) (gw : Gateway) (s : Session) (rows : List UserGatewayPermission)
      → s.working ≡ db
      → get_gateway gateway_id db ≡ some gw
      → granting user_id gateway_id required db ≡ rows
      → scalar_one_or_none rows ≢ ok none
      → scalar_one_or_none rows ≢ raised multiple_results
      → IsGranted db gw
  unfolding granting scalar_one_or_none
  IsGranted-by db gw s [] same found e ne nm = absurd (ne refl)
  IsGranted-by db gw s (row ∷ []) same found e ne nm =
      let (m, g) = select_sound db.user_gateway_permissions row [] e in
      record { found = found; row = row; listed = m; gives = grants_sound row g }
  IsGranted-by db gw s (a ∷ b ∷ rest) same found e ne nm = absurd (nm refl)

  -- If the permission check passes with a gateway, that gateway is in the table under the id asked
  -- for, and the table of permissions has a row of this user and this gateway whose permission is
  -- the required one or `admin`.
  pub check_perm_sound :
      (s : Session) (gw : Gateway)
      → (check_perm user_id gateway_id required s).0 ≡ ok gw
      → IsGranted s.working gw
  unfolding check_perm
  check_perm_sound s gw h =
      IsGranted-by s.working gw s (granting user_id gateway_id required s.working) refl
        (ground arith) refl (ground arith) (ground arith)
