-- ===== src/Tests/System.antt =====
-- The theorems on all processes together at concrete inputs.
use rpi_io_t_server_project.Base.{
  String, ◌≡◌, ◌≤◌, refl, Bool, true, any, find?, update, inl, inr, none, some, [], ◌∷◌, arith,
  eq_iff, nat_eq, string_eq, pair_eq,
}
use rpi_io_t_server_project.Base.Exec.{ok, raised, multiple_results}
use rpi_io_t_server_project.Auth.{TokenPayload}
use rpi_io_t_server_project.Config.{defaults}
use rpi_io_t_server_project.Json.{Json, obj, field, str, arr, nil, end, get_or, lookup, get}
use rpi_io_t_server_project.Models.{Db, Command, Gateway, UserGatewayPermission, empty_db}
use rpi_io_t_server_project.Platform.{Time}
use rpi_io_t_server_project.Session.{in_session, open_session}
use rpi_io_t_server_project.Worker.Lookups.{query_sensor_channel, query_actuator_channel}
use rpi_io_t_server_project.Worker.Heartbeat.{get_gateway}
use rpi_io_t_server_project.Worker.State
use rpi_io_t_server_project.Worker.State.Effect.{IsReported, state_on}
use rpi_io_t_server_project.Columns.{nullable_text}
use rpi_io_t_server_project.Scheduler.Timeout.{is_overdue, mark_timeout}
use rpi_io_t_server_project.Scheduler.Timeout
use rpi_io_t_server_project.Api.Permission.{check_perm}
use rpi_io_t_server_project.Api.Permission.Access.{IsRow}
use rpi_io_t_server_project.Api.Permission.Ambiguous.{check_perm_ambiguous}
use rpi_io_t_server_project.System.WellFormed.{IsWellFormed}
use rpi_io_t_server_project.System.Steps.{
  Reach, here, next, job, request, command_timeout, tick, removal, serve,
}
use rpi_io_t_server_project.System.Reachable.{reach-IsWellFormed, tick_clears}
use rpi_io_t_server_project.System.Provisioned.{IsProvisioned, reach-IsProvisioned}
use rpi_io_t_server_project.System.Lookups.{query_channel_total}
use rpi_io_t_server_project.Seed.{
  NewIds, main, seed_rows, seed_company, seed_site, seed_user, seed_role, seed_gateway,
  seed_permission, seed_profile, seed_sensor, seed_actuator, find_or_insert, insert_unless,
  find_company, find_site, find_user, has_role, find_gateway, has_permission, find_profile,
  find_sensor, find_actuator,
}
use rpi_io_t_server_project.Worker.Topic.{all_chars, slug_char}
use rpi_io_t_server_project.Schemas.{is_slug}
use rpi_io_t_server_project.Api.Gateways.{gateway_fits, permission_fits}
use rpi_io_t_server_project.Api.Channels.{sensor_fits, actuator_fits}
use rpi_io_t_server_project.Seed.Idempotent.{seed_twice}
use rpi_io_t_server_project.Tests.Data.{platform, noon, user, command, db, gateway, permission}

abbrev later : Time
later = 63_930_000_000_000_001

abbrev any_schema : Json → Bool
any_schema v = true

abbrev same_length : String → String → Bool
same_length a b = true

db-IsWellFormed : IsWellFormed db
unfolding any
db-IsWellFormed = (
  (refl, (refl, tt)),
  (refl, tt),
  (refl, tt),
  (refl, tt),
  (refl, tt),
  tt,
  (tt, tt),
  tt,
  (refl, tt),
)

-- The token of the user 40.
abbrev token : TokenPayload
token = record {
  raw = obj end;
  sub = str user.keycloak_user_id;
  email = str "";
  preferred_username = str "";
  realm_roles = arr nil;
}

-- The timeout job runs, then the user removes the gateway, which the command forbids.
abbrev after : Db
after =
    (in_session (serve platform defaults any_schema same_length token (removal 1))
      (tick platform defaults any_schema same_length command_timeout later db)).1

run : Reach platform defaults any_schema same_length db after
run = next (next here (job db command_timeout later)) (
    request (tick platform defaults any_schema same_length command_timeout later db) token
      (removal 1))

reach-IsWellFormed_example : IsWellFormed after
reach-IsWellFormed_example =
    reach-IsWellFormed platform defaults any_schema same_length db-IsWellFormed run

reach-IsProvisioned_example : IsProvisioned db after
reach-IsProvisioned_example = reach-IsProvisioned platform defaults any_schema same_length run

-- A command that has been published and expires after that round.
abbrev waiting : Command
waiting = record command { status = "published"; expires_at = later }

abbrev waited : Db
waited = record db { commands = waiting ∷ [] }

waiting_listed :
    IsRow waiting
      (tick platform defaults any_schema same_length command_timeout later waited).commands
unfolding tick in_session Timeout.run mark_timeout is_overdue update
waiting_listed = inl refl

tick_clears_example : later ≤ waiting.expires_at
tick_clears_example =
    tick_clears platform defaults any_schema same_length later waited waiting waiting_listed
      (inr refl)

query_channel_total_example :
    (query_sensor_channel 1 "env-1" db ≡ ok (some 20))
    × (query_actuator_channel 1 "env-1" db ≡ ok none)
unfolding find?
query_channel_total_example = query_channel_total db 1 "env-1" db-IsWellFormed

-- A second row of the user, for `view` only.
abbrev viewer : UserGatewayPermission
viewer = record permission { id = 51; permission = "view" }

abbrev shared : Db
shared = record db { user_gateway_permissions = permission ∷ viewer ∷ [] }

check_perm_ambiguous_example :
    (check_perm 40 1 "view" (open_session shared)).0 ≡ raised multiple_results
unfolding get_gateway find?
check_perm_ambiguous_example =
    check_perm_ambiguous 40 1 "view" (open_session shared) gateway viewer permission refl
      (inr (inl refl), refl, refl, refl) (inl refl, refl, refl, refl)
      (λ e. ground (arith, (eq_iff "view" "admin").1 e))

-- The broker reports the loss of the gateway, in a message that names a version.
abbrev loss : Json
loss = obj (
    field "status" (str "offline")
      (field "reason" (str "lwt") (field "app_version" (str "1.2.0") end)))

state_accepted : (State.handle platform noon 1 loss (open_session db)).0 ≡ ok tt
unfolding State.handle find? State.reported get_or State.last_seen lookup get State.version
    State.member State.config_version State.is_text nullable_text
state_accepted = refl

state_on_example :
    (after : Gateway) × (get_gateway 1 (in_session (State.handle platform noon 1 loss) db).1
      ≡ some after)
    × IsReported platform noon loss db gateway after
unfolding get_gateway find?
state_on_example = state_on platform noon loss db 1 gateway refl state_accepted

abbrev first_ids : NewIds
first_ids = record {
  company = 1;
  site = 2;
  user = 3;
  role = 4;
  gateway = 5;
  permission = 6;
  profile = 7;
  sensor = 8;
  vent = 9;
  spray = 10;
}

abbrev second_ids : NewIds
second_ids = record first_ids { company = 11; site = 12; user = 13; gateway = 15 }

abbrev seeded : Db
seeded = (in_session (main noon first_ids "secret" "GW-SIMTEST" (obj end)) empty_db).1

seeded_once : (in_session (main noon first_ids "secret" "GW-SIMTEST" (obj end)) empty_db).0 ≡ ok 0
unfolding main in_session seed_rows seed_company seed_site seed_user seed_role seed_gateway
    seed_permission seed_profile seed_sensor seed_actuator find_or_insert insert_unless find_company
    find_site find_user has_role find_gateway has_permission find_profile find_sensor find_actuator
    find? any gateway_fits permission_fits sensor_fits actuator_fits is_slug all_chars slug_char
seeded_once = refl

seed_twice_example :
    in_session (main later second_ids "secret" "GW-SIMTEST" (obj end)) seeded ≡ (ok 0, seeded)
seed_twice_example =
    seed_twice noon later first_ids second_ids "secret" "GW-SIMTEST" (obj end) (obj end) empty_db
      seeded_once
