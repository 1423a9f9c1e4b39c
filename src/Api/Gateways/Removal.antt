-- ===== src/Api/Gateways/Removal.antt =====
-- What the removal of a gateway leaves behind.
use rpi_io_t_server_project.Base.{
  ◌≡◌, ◌≢◌, refl, Bool, true, false, any, delete, find?, none, List, [], ◌∷◌, arith, ◌==◌, nat_eq,
}
use rpi_io_t_server_project.Base.Exec.{ok}
use rpi_io_t_server_project.Models.{Db, Gateway, SensorChannel, ActuatorChannel}
use rpi_io_t_server_project.Platform.{Uuid}
use rpi_io_t_server_project.Session.{Session}
use rpi_io_t_server_project.Worker.Heartbeat.{get_gateway}
use rpi_io_t_server_project.Api.Commands.Safety.{check_perm_reads}
use rpi_io_t_server_project.Api.Gateways.{in_use, remove_gateway, delete_gateway}

any-delete_self : {A : Type 0} (p : A → Bool) (xs : List A) → any p (delete p xs) ≡ false
unfolding any delete
any-delete_self p [] = refl
any-delete_self p (x ∷ xs) = ground (arith, any-delete_self p xs)

find?-delete_self : {A : Type 0} (p : A → Bool) (xs : List A) → find? p (delete p xs) ≡ none
unfolding find? delete
find?-delete_self p [] = refl
find?-delete_self p (x ∷ xs) = ground (arith, find?-delete_self p xs)

find?-delete_off :
    {A : Type 0} (q p : A → Bool) (xs : List A)
    → ((x : A) → q x ≡ true → p x ≡ false)
    → find? q (delete p xs) ≡ find? q xs
unfolding find? delete
find?-delete_off q p [] h = refl
find?-delete_off q p (x ∷ xs) h = ground (arith, find?-delete_off q p xs h, h x)

-- No row of the gateway is left in the three tables, and the other gateways are as they were.
pub record IsRemoved (gateway_id : Uuid) (before after : Db) : Type 0 where
  pub gone : get_gateway gateway_id after ≡ none
  pub no_sensors :
      any (λ (c : SensorChannel). c.gateway_id == gateway_id) after.sensor_channels ≡ false
  pub no_actuators :
      any (λ (c : ActuatorChannel). c.gateway_id == gateway_id) after.actuator_channels ≡ false
  pub others : (k : Uuid) → k ≢ gateway_id → get_gateway k after ≡ get_gateway k before
  pub commands : after.commands ≡ before.commands

remove_gateway-IsRemoved :
    (gateway_id : Uuid) (db : Db) → IsRemoved gateway_id db (remove_gateway gateway_id db)
unfolding remove_gateway get_gateway
remove_gateway-IsRemoved gateway_id db = record {
  gone = find?-delete_self (λ (g : Gateway). g.id == gateway_id) db.gateways;
  no_sensors =
      any-delete_self (λ (c : SensorChannel). c.gateway_id == gateway_id) db.sensor_channels;
  no_actuators =
      any-delete_self (λ (c : ActuatorChannel). c.gateway_id == gateway_id) db.actuator_channels;
  others = λ k ne.
      find?-delete_off (λ (g : Gateway). g.id == k) (λ g. g.id == gateway_id) db.gateways
        (λ g here. ground arith);
  commands = refl;
}

module _ (user_id gateway_id : Uuid) (s : Session) where
  -- If the removal of a gateway succeeds, no command referred to it or to its actuators, and the
  -- committed database has neither the gateway nor a sensor or actuator channel of it, while the
  -- other gateways and all commands are as they were.
  pub delete_gateway-IsRemoved :
      (delete_gateway user_id gateway_id s).0 ≡ ok tt
      → (in_use gateway_id s.working ≡ false)
        × IsRemoved gateway_id s.working (delete_gateway user_id gateway_id s).1.committed
  unfolding delete_gateway
  delete_gateway-IsRemoved h =
      grind (arith, check_perm_reads, remove_gateway-IsRemoved gateway_id s.working)
