-- ===== src/Api/Permission/Ambiguous.antt =====
-- A user with the required permission and with `admin`.
use rpi_io_t_server_project.Base.{
  String, ◌≡◌, ◌≢◌, ◌⊎◌, refl, ap, ◌∙◌, sym, Bool, true, select, some, List, [], ◌∷◌, nat_eq,
  string_eq, eq_iff, Bool-cases, inl, inr, arith,
}
use rpi_io_t_server_project.Base.Exec.{raised, multiple_results}
use rpi_io_t_server_project.Models.{Db, Gateway, UserGatewayPermission}
use rpi_io_t_server_project.Platform.{Uuid}
use rpi_io_t_server_project.Session.{Session, scalar_one_or_none}
use rpi_io_t_server_project.Worker.Heartbeat.{get_gateway}
use rpi_io_t_server_project.Api.Permission.{grants, granting, check_perm}
use rpi_io_t_server_project.Api.Permission.Access.{IsRow}

module _ (q : UserGatewayPermission → Bool) where
  select_some :
      (rows : List UserGatewayPermission) (r : UserGatewayPermission)
      → IsRow r rows
      → q r ≡ true
      → (a : UserGatewayPermission) × (rest : List UserGatewayPermission) × (select q rows
          ≡ a ∷ rest)
  unfolding select
  select_some [] r m hit = absurd m
  select_some (x ∷ rows) r (inl e) hit = (x, select q rows, rw (← e, hit))
  select_some (x ∷ rows) r (inr m) hit = elim (Bool-cases (q x)) [
    | inl first ↦ (x, select q rows, rw first)
    | inr skip ↦ let (a, rest, e) = select_some rows r m hit in (a, rest, rw skip e)
  ]

  select_two :
      (rows : List UserGatewayPermission) (r s : UserGatewayPermission)
      → IsRow r rows
      → IsRow s rows
      → r ≢ s
      → q r ≡ true
      → q s ≡ true
      → scalar_one_or_none (select q rows) ≡ raised multiple_results
  unfolding select scalar_one_or_none
  select_two [] r s mr ms ne hr hs = absurd mr
  select_two (x ∷ rows) r s (inl er) (inl es) ne hr hs = absurd (ne (er ∙ sym es))
  select_two (x ∷ rows) r s (inl er) (inr ms) ne hr hs =
      let (a, rest, e) = select_some rows s ms hs in rw (← er, hr, e)
  select_two (x ∷ rows) r s (inr mr) (inl es) ne hr hs =
      let (a, rest, e) = select_some rows r mr hr in rw (← es, hs, e)
  select_two (x ∷ rows) r s (inr mr) (inr ms) ne hr hs = elim (Bool-cases (q x)) [
    | inl first ↦ let (a, rest, e) = select_some rows r mr hr in rw (first, e)
    | inr skip ↦ rw skip (select_two rows r s mr ms ne hr hs)
  ]

module _ (user_id gateway_id : Uuid) (required : String) where
  -- A row of the user for the gateway.
  abbrev pub Has : String → UserGatewayPermission → Db → Type 0
  Has permission r d =
      IsRow r d.user_gateway_permissions
      × (r.user_id ≡ user_id)
      × (r.gateway_id ≡ gateway_id)
      × (r.permission ≡ permission)

  granted :
      (permission : String) (r : UserGatewayPermission) (d : Db)
      → Has permission r d
      → (permission ≡ required) ⊎ (permission ≡ "admin")
      → grants user_id gateway_id required r ≡ true
  unfolding grants
  granted permission r d h k =
      ground (arith, eq_iff r.permission required, eq_iff r.permission "admin")

  -- If the gateway exists and a user has two rows for it, one with the permission asked for and
  -- one with `admin`, and the permission asked for is not `admin`, then the permission check
  -- raises MultipleResultsFound.
  pub check_perm_ambiguous :
      (s : Session) (gw : Gateway) (a b : UserGatewayPermission)
      → get_gateway gateway_id s.working ≡ some gw
      → Has required a s.working
      → Has "admin" b s.working
      → required ≢ "admin"
      → (check_perm user_id gateway_id required s).0 ≡ raised multiple_results
  unfolding check_perm granting
  check_perm_ambiguous s gw a b found ha hb ne = ground (
    arith,
    select_two (grants user_id gateway_id required) s.working.user_gateway_permissions a b ha.0 hb.0
        (λ e. ne (sym ha.3 ∙ ap (λ (r : UserGatewayPermission). r.permission) e ∙ hb.3))
        (granted required a s.working ha (inl refl)) (granted "admin" b s.working hb (inr refl)),
  )
