-- ===== src/Worker/Heartbeat/Effect.antt =====
-- What a heartbeat changes.
use rpi_io_t_server_project.Base.{
  String, ◌≡◌, ◌≢◌, refl, ap, some, find?-holds, ◌==◌, nat_eq, string_eq, if◌then◌else◌, arith,
}
use rpi_io_t_server_project.Base.Unique.{find?-update_off, find?-update_on}
use rpi_io_t_server_project.Base.Exec.{ok}
use rpi_io_t_server_project.Clock.{parse_iso8601}
use rpi_io_t_server_project.Json.{Json, get}
use rpi_io_t_server_project.Models.{Db, Gateway}
use rpi_io_t_server_project.Platform.{Platform, Uuid, Time}
use rpi_io_t_server_project.Session.{in_session}
use rpi_io_t_server_project.Worker.Heartbeat.{get_gateway, update_gateway, revived, seen, handle}

-- The UPDATE of one gateway leaves the others alone.
pub get_gateway-update_gateway :
    (j k : Uuid) (f : Gateway → Gateway) (db : Db)
    → ((g : Gateway) → (f g).id ≡ g.id)
    → j ≢ k
    → get_gateway k (update_gateway j f db) ≡ get_gateway k db
unfolding get_gateway update_gateway
get_gateway-update_gateway j k f db keeps ne =
    find?-update_off (λ (g : Gateway). g.id == k) (λ g. g.id == j) f db.gateways
      (λ g. ap (λ i. i == k) (keeps g)) (λ g here. ground arith)

-- The gateway itself is changed.
pub get_gateway-update_gateway_self :
    (k : Uuid) (f : Gateway → Gateway) (db : Db) (g : Gateway)
    → ((g : Gateway) → (f g).id ≡ g.id)
    → get_gateway k db ≡ some g
    → get_gateway k (update_gateway k f db) ≡ some (f g)
unfolding get_gateway update_gateway
get_gateway-update_gateway_self k f db g keeps found =
    let q = λ (g : Gateway). g.id == k in
    find?-update_on q q f db.gateways g (λ g. ap (λ i. i == k) (keeps g)) found
      (find?-holds q db.gateways g found)

module _ (p : Platform) (now : Time) (body : Json) (db : Db) where
  seen_elsewhere :
      (j k : Uuid) (ts : Time) (status : String)
      → j ≢ k
      → get_gateway k (update_gateway j (seen ts status) db) ≡ get_gateway k db
  seen_elsewhere j k ts status = get_gateway-update_gateway j k (seen ts status) db (λ g. refl)

  -- A heartbeat of one gateway, whatever its body says, leaves every other gateway as it was in
  -- the committed database.
  pub heartbeat_off :
      (j k : Uuid)
      → j ≢ k
      → get_gateway k (in_session (handle p now j body) db).1 ≡ get_gateway k db
  unfolding handle in_session
  heartbeat_off j k ne = grind (arith, seen_elsewhere)

  -- A heartbeat whose timestamp can be read sets the time at which its gateway was last seen to
  -- that timestamp, makes its status `online` if it was `offline`, and changes no other column of
  -- it.
  pub heartbeat_on :
      (k : Uuid) (g : Gateway) (stamp : Json) (ts : Time)
      → get_gateway k db ≡ some g
      → get body "timestamp" ≡ ok stamp
      → parse_iso8601 p now stamp ≡ ok ts
      → get_gateway k (in_session (handle p now k body) db).1
        ≡ some (record g {
          last_seen_at = some ts;
          status = if g.status == "offline" then "online" else g.status;
        })
  unfolding handle in_session revived
  heartbeat_on k g stamp ts found stamped parsed =
      let e =
        get_gateway-update_gateway_self k (seen ts (revived g.status)) db g (λ g. refl) found in
      ground (arith, e)
