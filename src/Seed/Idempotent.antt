-- ===== src/Seed/Idempotent.antt =====
-- A second run of sim-seed.py finds every row that the first one left.
use rpi_io_t_server_project.Base.{
  String, ◌≡◌, refl, Bool, true, none, some, any, find?, find?-append, List, [], ◌∷◌, ◌++◌, ◌==◌,
  beq_refl, nat_eq, string_eq, Bool-cases, Option-cases, inl, inr, arith,
}
use rpi_io_t_server_project.Base.Exec.{ok}
use rpi_io_t_server_project.Json.{Json}
use rpi_io_t_server_project.Models.{Db}
use rpi_io_t_server_project.Platform.{Uuid, Time}
use rpi_io_t_server_project.Session.{open_session, in_session}
use rpi_io_t_server_project.Seed.{
  NewIds, id_of, find_or_insert, insert_unless, find_company, find_site, find_user, has_role,
  find_gateway, has_permission, find_profile, find_sensor, find_actuator, seed_company, seed_site,
  seed_user, seed_role, seed_gateway, seed_permission, seed_profile, seed_sensor, seed_actuator,
  seed_rows, main,
}
use rpi_io_t_server_project.Seed.Ensures.{
  Ensures, Ensures-bind, Commits, Commits-bind, find_or_insert-Ensures, insert_unless-Ensures,
}

-- The rows that the script looks for are all there.
pub record IsSeeded (serial : String) (d : Db) : Type 0 where
  pub company : Uuid
  pub site : Uuid
  pub user : Uuid
  pub gateway : Uuid
  pub profile : Uuid
  pub sensor : Uuid
  pub vent : Uuid
  pub spray : Uuid
  pub has_company : find_company d ≡ some company
  pub has_site : find_site company d ≡ some site
  pub has_user : find_user d ≡ some user
  pub is_admin : has_role user company d ≡ true
  pub has_gateway : find_gateway serial d ≡ some gateway
  pub may_admin : has_permission user gateway d ≡ true
  pub has_profile : find_profile d ≡ some profile
  pub has_sensor : find_sensor gateway d ≡ some sensor
  pub has_vent : find_actuator gateway "relay-vent" d ≡ some vent
  pub has_spray : find_actuator gateway "relay-spray" d ≡ some spray

module _ {A : Type 0} (id : A → Uuid) (test : A → Bool) where
  -- A row that is inserted because none was found is the one found next.
  find-inserted :
      (rows : List A) (row : A)
      → test row ≡ true
      → id_of id (find? test rows) ≡ none
      → id_of id (find? test (rows ++ row ∷ [])) ≡ some (id row)
  unfolding find?
  find-inserted rows row t h = elim (Option-cases (find? test rows)) [
    | inl missing ↦ rw (find?-append test rows (row ∷ []) missing, t) refl
    | inr (a, found) ↦ ground arith
  ]

  any-inserted : (rows : List A) (row : A) → test row ≡ true → any test (rows ++ row ∷ []) ≡ true
  unfolding any
  any-inserted [] row t = ground arith
  any-inserted (r ∷ rows) row t = ground (arith, any-inserted rows row t)

  -- A row inserted after one that was found hides it from no query.
  find-kept :
      (rows more : List A) (k : Uuid)
      → id_of id (find? test rows) ≡ some k
      → id_of id (find? test (rows ++ more)) ≡ some k
  unfolding find?
  find-kept [] more k h = ground arith
  find-kept (r ∷ rows) more k h = ground (arith, find-kept rows more k)

module _ (now : Time) (ids : NewIds) (serial : String) (profile_json : Json) where
  seed_rows-Ensures :
      (password : String)
      → Ensures
          (λ _. Unit {0})
          (seed_rows now ids password serial profile_json)
          (λ _ d. IsSeeded serial d)
  unfolding seed_rows seed_company seed_site seed_user seed_role seed_gateway seed_permission
      seed_profile seed_sensor seed_actuator find_company find_site find_user has_role find_gateway
      has_permission find_profile find_sensor find_actuator
  seed_rows-Ensures password =
      Ensures-bind
        (find_or_insert-Ensures _ _ _ _ _ (λ d f. f)
          (λ d. find-inserted (λ c. c.id) _ d.companies _ refl))
        (λ company.
          Ensures-bind
            (find_or_insert-Ensures _ _ _ _ _ (λ d f. f)
              (λ d. find-inserted (λ s. s.id) _ d.sites _ (rw (beq_refl company) refl)))
            (λ site.
              Ensures-bind
                (find_or_insert-Ensures _ _ _ _ _ (λ d f. f)
                  (λ d. find-inserted (λ s. s.id) _ d.users _ refl))
                (λ user.
                  Ensures-bind
                    (insert_unless-Ensures _ _ _ _ (λ d f. f)
                      (λ d.
                        any-inserted (λ r. r.id) _ d.user_company_roles _
                          (rw (beq_refl user, beq_refl company) refl)))
                    (λ _.
                      Ensures-bind
                        (find_or_insert-Ensures _ _ _ _ _ (λ d f. f)
                          (λ d. find-inserted (λ g. g.id) _ d.gateways _ (beq_refl serial)))
                        (λ gateway.
                          Ensures-bind
                            (insert_unless-Ensures _ _ _ _ (λ d f. f)
                              (λ d.
                                any-inserted (λ r. r.id) _ d.user_gateway_permissions _
                                  (rw (beq_refl user, beq_refl gateway) refl)))
                            (λ _.
                              Ensures-bind
                                (find_or_insert-Ensures _ _ _ _ _ (λ d f. f)
                                  (λ d. find-inserted (λ s. s.id) _ d.sensor_profiles _ refl))
                                (λ profile.
                                  Ensures-bind
                                    (find_or_insert-Ensures _ _ _ _ _ (λ d f. f)
                                      (λ d.
                                        find-inserted (λ c. c.id) _ d.sensor_channels _
                                          (rw (beq_refl gateway) refl)))
                                    (λ sensor.
                                      Ensures-bind
                                        (find_or_insert-Ensures _ _ _ _ _ (λ d f. f)
                                          (λ d.
                                            find-inserted (λ c. c.id) _ d.actuator_channels _
                                              (rw (beq_refl gateway) refl)))
                                        (λ vent.
                                          Ensures-bind
                                            (find_or_insert-Ensures _ _ _ _ _
                                              (λ d f. (
                                                f.0,
                                                find-kept (λ c. c.id) _ d.actuator_channels _ vent
                                                    f.1,
                                              ))
                                              (λ d.
                                                find-inserted (λ c. c.id) _ d.actuator_channels _
                                                  (rw (beq_refl gateway) refl)))
                                            (λ spray. record {
                                              at =
                                                  λ s
                                                      (
                                                        (
                                                          (
                                                            (
                                                            ((((((_, co), si), us), ro), ga), pe),
                                                            pr,
                                                            ),
                                                            se,
                                                          ),
                                                          ve,
                                                        ),
                                                        sp,
                                                      )
                                                      a e.
                                                    record {
                                                      company = company;
                                                      site = site;
                                                      user = user;
                                                      gateway = gateway;
                                                      profile = profile;
                                                      sensor = sensor;
                                                      vent = vent;
                                                      spray = spray;
                                                      has_company = co;
                                                      has_site = si;
                                                      has_user = us;
                                                      is_admin = ro;
                                                      has_gateway = ga;
                                                      may_admin = pe;
                                                      has_profile = pr;
                                                      has_sensor = se;
                                                      has_vent = ve;
                                                      has_spray = sp;
                                                    };
                                            }))))))))))

  seed_rows-Commits : (password : String) → Commits (seed_rows now ids password serial profile_json)
  unfolding seed_rows
  seed_rows-Commits password = Commits-bind (seed_company now ids.company) (λ company.
      Commits-bind (seed_site now ids.site company) (λ site.
        Commits-bind (seed_user now ids.user) (λ user.
          Commits-bind (seed_role now ids.role user company) (λ _.
            Commits-bind (seed_gateway now ids.gateway serial company site) (λ gateway.
              Commits-bind (seed_permission now ids.permission user gateway) (λ _.
                Commits-bind (seed_profile now ids.profile profile_json) (λ profile.
                  Commits-bind (seed_sensor now ids.sensor gateway profile) (λ sensor.
                    Commits-bind
                      (seed_actuator now ids.vent gateway "relay-vent" "환기팬" "GPIO17" 600)
                      (λ vent.
                        Commits-bind
                          (seed_actuator now ids.spray gateway "relay-spray" "살균기" "GPIO27" 60)
                          (λ spray. record { all = λ s a h. refl }))))))))))

  found_again :
      (d : Db) (password : String)
      → IsSeeded serial d
      → seed_rows now ids password serial profile_json (open_session d) ≡ (ok 0, open_session d)
  unfolding seed_rows seed_company seed_site seed_user seed_role seed_gateway seed_permission
      seed_profile seed_sensor seed_actuator find_or_insert insert_unless
  found_again d password f =
      rw
        (
          f.has_company, f.has_site, f.has_user, f.is_admin, f.has_gateway, f.may_admin,
          f.has_profile, f.has_sensor, f.has_vent, f.has_spray,
        )
        refl

module _ (now later : Time) (ids more : NewIds) (password serial : String)
    (profile_json profile_json' : Json) where
  rows_leave :
      (d : Db)
      → (seed_rows now ids password serial profile_json (open_session d)).0 ≡ ok 0
      → IsSeeded serial
          (seed_rows now ids password serial profile_json (open_session d)).1.committed
  rows_leave d h =
      rw ((seed_rows-Commits now ids serial profile_json password).all (open_session d) 0 h)
        ((seed_rows-Ensures now ids serial profile_json password).at (open_session d) tt 0 h)

  -- If a run of the seed script ends with status 0, then a second run with the same password and
  -- serial, with whatever new UUIDs, time and example profile, ends with status 0 and leaves the
  -- database exactly as the first run left it.
  pub seed_twice :
      (d : Db)
      → (in_session (main now ids password serial profile_json) d).0 ≡ ok 0
      → let seeded = (in_session (main now ids password serial profile_json) d).1 in
        in_session (main later more password serial profile_json') seeded ≡ (ok 0, seeded)
  unfolding in_session main
  seed_twice d h = elim (Bool-cases (password == "")) [
    | inl empty ↦ ground arith
    | inr given ↦ rw given (
        let seeded =
          (seed_rows now ids password serial profile_json (open_session d)).1.committed in
        rw
          (found_again later more serial profile_json' seeded password
            (rows_leave d (ground arith)))
          refl)
  ]
