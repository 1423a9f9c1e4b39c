-- ===== src/Api/Gateways/Registration.antt =====
-- What the permission check says after register_gateway.
use rpi_io_t_server_project.Base.{
  String, ◌≡◌, refl, ◌∙◌, Bool, true, false, ◌||◌, any, select, find?, find?-append, none, some,
  List, [], ◌∷◌, ◌++◌, arith, ◌==◌, nat_eq, string_eq,
}
use rpi_io_t_server_project.Base.Exec.{ok}
use rpi_io_t_server_project.Models.{Db, Gateway, UserGatewayPermission}
use rpi_io_t_server_project.Platform.{Uuid, Time}
use rpi_io_t_server_project.Schemas.{GatewayIn}
use rpi_io_t_server_project.Session.{Session, open_session, scalar_one_or_none}
use rpi_io_t_server_project.Worker.Heartbeat.{get_gateway}
use rpi_io_t_server_project.Api.Permission.{check_perm, granting, grants}
use rpi_io_t_server_project.Api.Gateways.{new_gateway, gateway_fits, register_gateway}

select-append :
    {A : Type 0} (p : A → Bool) (xs : List A) (y : A)
    → select p xs ≡ []
    → p y ≡ true
    → select p (xs ++ y ∷ []) ≡ y ∷ []
unfolding select
select-append p [] y none_yet hit = ground arith
select-append p (x ∷ xs) y none_yet hit = ground (arith, select-append p xs y)

find?-none :
    {A : Type 0} (p q : A → Bool) (xs : List A)
    → any (λ x. p x || q x) xs ≡ false
    → find? p xs ≡ none
unfolding find? any
find?-none p q [] h = refl
find?-none p q (x ∷ xs) h = ground (arith, find?-none p q xs)

-- One row that gives the permission.
check_perm_one :
    (user_id gateway_id : Uuid) (required : String) (db : Db) (gw : Gateway)
    (row : UserGatewayPermission)
    → get_gateway gateway_id db ≡ some gw
    → granting user_id gateway_id required db ≡ row ∷ []
    → (check_perm user_id gateway_id required (open_session db)).0 ≡ ok gw
unfolding check_perm scalar_one_or_none
check_perm_one user_id gateway_id required db gw row found one = ground arith

module _ (gateway_id perm_id : Uuid) (now : Time) (user_id : Uuid) (body : GatewayIn) where
  abbrev first_admin : UserGatewayPermission
  first_admin = record {
    id = perm_id;
    user_id = user_id;
    gateway_id = gateway_id;
    permission = "admin";
    created_at = now;
  }

  new_gateway_found :
      (db : Db)
      → gateway_fits (new_gateway gateway_id now body) db ≡ true
      → find?
          (λ (g : Gateway). g.id == gateway_id)
          (db.gateways ++ new_gateway gateway_id now body ∷ [])
        ≡ some (new_gateway gateway_id now body)
  unfolding gateway_fits find? new_gateway
  new_gateway_found db fits =
      let q = λ (g : Gateway). g.id == gateway_id in
      find?-append q db.gateways (new_gateway gateway_id now body ∷ []) (
        find?-none q (λ (g : Gateway). g.serial_number == body.serial_number) db.gateways
          (ground arith))
      ∙ ground arith

  admin_selected :
      (required : String) (db : Db)
      → granting user_id gateway_id required db ≡ []
      → select
          (grants user_id gateway_id required)
          (db.user_gateway_permissions ++ first_admin ∷ [])
        ≡ first_admin ∷ []
  unfolding granting grants
  admin_selected required db fresh =
      select-append (grants user_id gateway_id required) db.user_gateway_permissions first_admin
        fresh (ground arith)

  -- What a registration that succeeds has committed.
  record IsRegistered (s : Session) (gw : Gateway) (db : Db) : Type 0 where
    fits : gateway_fits (new_gateway gateway_id now body) s.working ≡ true
    made : gw ≡ new_gateway gateway_id now body
    gateways : db.gateways ≡ s.working.gateways ++ new_gateway gateway_id now body ∷ []
    permissions :
        db.user_gateway_permissions ≡ s.working.user_gateway_permissions ++ first_admin ∷ []

  registered :
      (s : Session) (gw : Gateway)
      → (register_gateway gateway_id perm_id now user_id body s).0 ≡ ok gw
      → IsRegistered s gw (register_gateway gateway_id perm_id now user_id body s).1.committed
  unfolding register_gateway
  registered s gw h = record {
    fits = ground arith;
    made = ground arith;
    gateways = ground arith;
    permissions = ground arith;
  }

  -- If the registration of a gateway succeeds, and no permission of this user on the new UUID
  -- matched before, then in a new session the user passes the check for every permission, with
  -- that gateway.
  pub register_gateway_grants :
      (s : Session) (gw : Gateway) (required : String)
      → (register_gateway gateway_id perm_id now user_id body s).0 ≡ ok gw
      → granting user_id gateway_id required s.working ≡ []
      → (check_perm user_id gateway_id required
          (open_session (register_gateway gateway_id perm_id now user_id body s).1.committed)).0
        ≡ ok gw
  unfolding granting get_gateway
  register_gateway_grants s gw required h fresh =
      let r = registered s gw h in
      check_perm_one user_id gateway_id required _ gw first_admin
        (rw (r.gateways, r.made) (new_gateway_found s.working r.fits))
        (rw r.permissions (admin_selected required s.working fresh))
