-- ===== src/System/Lookups.antt =====
-- In a well-formed database the lookups of the worker find one row at most.
use rpi_io_t_server_project.Base.{
  String, ◌≡◌, refl, Bool, true, false, ◌&&◌, any, select, find?, map, Option, none, some, List, [],
  ◌∷◌, ◌==◌, nat_eq, string_eq, eq_iff, Bool-cases, inl, inr, arith,
}
use rpi_io_t_server_project.Base.Unique.{Unique}
use rpi_io_t_server_project.Base.Exec.{ok}
use rpi_io_t_server_project.Models.{Db, Gateway, SensorChannel, ActuatorChannel}
use rpi_io_t_server_project.Platform.{Uuid}
use rpi_io_t_server_project.Session.{scalar_one_or_none}
use rpi_io_t_server_project.Worker.Lookups.{
  query_gateway, query_sensor_channel, query_actuator_channel,
}
use rpi_io_t_server_project.System.WellFormed.{
  IsWellFormed, same_gateway, same_sensor, same_actuator,
}

abbrev pub option_map : {A B : Type 0} → (A → B) → Option A → Option B
option_map f none = none
option_map f (some a) = some (f a)

module _ {A : Type 0} (same : A → A → Bool) (q : A → Bool) where
  select_none :
      (x : A) (xs : List A)
      → q x ≡ true
      → ((y : A) → q y ≡ true → same x y ≡ true)
      → any (same x) xs ≡ false
      → select q xs ≡ []
  unfolding select any
  select_none x [] hit one u = refl
  select_none x (y ∷ ys) hit one u = ground (arith, one y, select_none x ys hit one)

  -- A test that only rows of one key pass.
  pub select-one :
      {B : Type 0} (f : A → B) (xs : List A)
      → ((x y : A) → q x ≡ true → q y ≡ true → same x y ≡ true)
      → Unique same xs
      → scalar_one_or_none (map f (select q xs)) ≡ ok (option_map f (find? q xs))
  unfolding select find? scalar_one_or_none
  select-one f [] one u = refl
  select-one f (x ∷ xs) one (u, us) = elim (Bool-cases (q x)) [
    | inl hit ↦ rw (hit, select_none x xs hit (λ y. one x y hit) u)
    | inr miss ↦ rw miss (select-one f xs one us)
  ]

-- In a database with the nine properties, the lookup of a gateway by its serial number does not
-- raise, and answers with the id of the row that matches, if there is one.
pub query_gateway_total :
    (d : Db) (serial : String)
    → IsWellFormed d
    → query_gateway serial d
      ≡ ok (option_map (λ g. g.id) (find? (λ (g : Gateway). g.serial_number == serial) d.gateways))
unfolding query_gateway
query_gateway_total d serial w =
    select-one same_gateway (λ g. g.serial_number == serial) (λ g. g.id) d.gateways
      (λ a b ha hb. ground (
        arith,
        eq_iff a.serial_number serial,
        eq_iff b.serial_number serial,
        eq_iff a.serial_number b.serial_number,
      ))
      w.0

abbrev in_gateway : Uuid → String → SensorChannel → Bool
in_gateway g slug c = c.gateway_id == g && c.slug == slug

-- In a database with the nine properties, the lookups of a sensor channel and of an actuator
-- channel by gateway and slug do not raise, and answer with the id of the row that matches, if
-- there is one.
pub query_channel_total :
    (d : Db) (g : Uuid) (slug : String)
    → IsWellFormed d
    → (query_sensor_channel g slug d
        ≡ ok (
            option_map
              (λ c. c.id)
              (find?
                (λ (c : SensorChannel). c.gateway_id == g && c.slug == slug)
                d.sensor_channels)))
      × (query_actuator_channel g slug d
          ≡ ok (
              option_map
                (λ c. c.id)
                (find?
                  (λ (c : ActuatorChannel). c.gateway_id == g && c.slug == slug)
                  d.actuator_channels)))
unfolding query_sensor_channel query_actuator_channel
query_channel_total d g slug w = (
  select-one same_sensor (λ c. c.gateway_id == g && c.slug == slug) (λ c. c.id) d.sensor_channels
      (λ a b ha hb. ground (arith, eq_iff a.slug slug, eq_iff b.slug slug, eq_iff a.slug b.slug))
      w.1,
  select-one same_actuator (λ c. c.gateway_id == g && c.slug == slug) (λ c. c.id)
      d.actuator_channels
      (λ a b ha hb. ground (arith, eq_iff a.slug slug, eq_iff b.slug slug, eq_iff a.slug b.slug))
      w.2,
)
