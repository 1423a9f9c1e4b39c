-- ===== src/Tests/Requests.antt =====
-- The API's theorems at concrete inputs.
use rpi_io_t_server_project.Base.{
  ◌≡◌, ◌≤◌, refl, true, false, none, some, [], ◌∷◌, any, select, find?, arith, nat_eq, string_eq,
}
use rpi_io_t_server_project.Base.Int.{pos}
use rpi_io_t_server_project.Base.Sort.{order_by}
use rpi_io_t_server_project.Base.Exec.{ok, raised, http}
use rpi_io_t_server_project.Config.{defaults}
use rpi_io_t_server_project.Models.{Db, Command, Telemetry}
use rpi_io_t_server_project.Schemas.{valid_command}
use rpi_io_t_server_project.Session.{in_session, open_session, scalar_one_or_none}
use rpi_io_t_server_project.Worker.CommandResponse.{get_command}
use rpi_io_t_server_project.Worker.Topic.{all_chars, slug_char}
use rpi_io_t_server_project.Scheduler.Timeout
use rpi_io_t_server_project.Api.Permission.{check_perm, granting}
use rpi_io_t_server_project.Api.Permission.Access.{IsGranted, check_perm_sound}
use rpi_io_t_server_project.Api.Gateways.{new_gateway, register_gateway, delete_gateway, in_use}
use rpi_io_t_server_project.Api.Gateways.Registration.{register_gateway_grants}
use rpi_io_t_server_project.Api.Gateways.Removal.{IsRemoved, delete_gateway-IsRemoved}
use rpi_io_t_server_project.Api.TelemetryQuery.{TelemetryRow, get_telemetry_range, take, in_range}
use rpi_io_t_server_project.Api.TelemetryQuery.Bounds.{IsPage, get_telemetry_range-IsPage}
use rpi_io_t_server_project.Api.Commands.{
  CommandMessage, issue_command, publish, prepare, new_command, get_actuator, command_fits,
  mark_published,
}
use rpi_io_t_server_project.Api.Commands.Safety.{issue_command_refused}
use rpi_io_t_server_project.Api.Commands.Issued.{IsIssued, issue_command_sound}
use rpi_io_t_server_project.Api.Commands.Race.{answered_times_out}
use rpi_io_t_server_project.Tests.Data.{
  platform, noon, db, idle_db, gateway, command, backend, switch_on, newcomer,
}

abbrev quiet : Db → Db
quiet d = d

-- The command that `switch_on` makes.
abbrev switched : Command
switched = record command { id = "cmd-2"; expires_at = 63_930_000_005_000_000 }

switch_on_accepted :
    (issue_command platform defaults noon "cmd-2" quiet true 40 1 switch_on backend).0 ≡ ok switched
unfolding issue_command valid_command prepare check_perm find? scalar_one_or_none select
    get_actuator new_command command_fits any publish mark_published
switch_on_accepted = refl

issue_command_sound_example :
    IsIssued platform defaults noon "cmd-2" quiet true 40 1 switch_on backend switched
      (issue_command platform defaults noon "cmd-2" quiet true 40 1 switch_on backend).1.outbox
issue_command_sound_example =
    issue_command_sound platform defaults noon "cmd-2" quiet true 40 1 switch_on backend switched
      switch_on_accepted

-- A user with no permission.
stranger_refused :
    (issue_command platform defaults noon "cmd-2" quiet true 41 1 switch_on backend).0
    ≡ raised (http 403)
unfolding issue_command valid_command prepare check_perm find? scalar_one_or_none select
stranger_refused = refl

issue_command_refused_example :
    let b' = (issue_command platform defaults noon "cmd-2" quiet true 41 1 switch_on backend).1 in
    (b'.session.committed ≡ idle_db) × (b'.outbox ≡ [])
issue_command_refused_example =
    issue_command_refused platform defaults noon "cmd-2" quiet true 41 1 switch_on backend
      stranger_refused (ground arith)

-- The gateway has answered before the second transaction.
abbrev executed : Command
executed = record command { status = "executed"; completed_at = some noon }

abbrev gateway_answers : Db → Db
gateway_answers d = record d { commands = executed ∷ [] }

abbrev sent : CommandMessage
sent = record {
  topic = "gw/GW-1/command/request";
  command_id = "cmd-1";
  gateway_id = "GW-1";
  target_type = "actuator";
  actuator_channel_id = "relay-vent";
  action = "ON";
  issued_by = 40;
  issued_at = noon;
  expires_at = noon;
  timeout_ms = pos 3000;
  require_ack = true;
  reason = "";
}

answered_times_out_example :
    let b' = (publish gateway_answers true command sent backend).1 in
    get_command "cmd-1" (in_session (Timeout.run 63_930_000_000_000_001) b'.session.committed).1
    ≡ some (record executed { status = "timeout"; completed_at = some 63_930_000_000_000_001 })
unfolding get_command find?
answered_times_out_example =
    answered_times_out gateway_answers command sent backend executed 63_930_000_000_000_001 refl
      (omega arith)

check_perm_sound_example : IsGranted 40 1 "control" db gateway
unfolding check_perm find? scalar_one_or_none select
check_perm_sound_example = check_perm_sound 40 1 "control" (open_session db) gateway refl

register_gateway_grants_example :
    (check_perm 40 3 "control"
      (open_session (register_gateway 3 51 noon 40 newcomer (open_session db)).1.committed)).0
    ≡ ok (new_gateway 3 noon newcomer)
unfolding register_gateway granting all_chars slug_char any select
register_gateway_grants_example =
    register_gateway_grants 3 51 noon 40 newcomer (open_session db) (new_gateway 3 noon newcomer)
      "control" refl refl

delete_gateway-IsRemoved_example :
    (in_use 1 idle_db ≡ false)
    × IsRemoved 1 idle_db (delete_gateway 40 1 (open_session idle_db)).1.committed
unfolding delete_gateway check_perm find? scalar_one_or_none select any
delete_gateway-IsRemoved_example = delete_gateway-IsRemoved 40 1 (open_session idle_db) refl

abbrev row : Telemetry
row = record {
  id = 1;
  company_id = 10;
  site_id = none;
  gateway_id = 1;
  sensor_channel_id = 20;
  measurement_key = "temperature";
  ts = noon;
  value_double = some 7;
  value_text = none;
  value_bool = none;
  value_json = none;
  unit = none;
  quality = none;
  raw = none;
}

abbrev history : Db
history = record db { telemetry = row ∷ record row { id = 2; ts = 63_930_000_000_000_001 } ∷ [] }

abbrev newest : TelemetryRow
newest = record {
  ts = 63_930_000_000_000_001;
  measurement_key = "temperature";
  value_double = some 7;
  unit = none;
  quality = none;
}

get_telemetry_range-IsPage_example :
    (1 ≤ 10000) × (24 ≤ 720) × IsPage 63_929_913_600_000_001 1 (newest ∷ [])
unfolding get_telemetry_range check_perm find? scalar_one_or_none select take order_by in_range
get_telemetry_range-IsPage_example =
    get_telemetry_range-IsPage 63_930_000_000_000_001 40 1 none 24 1 (open_session history)
      (newest ∷ []) refl
