-- ===== src/Tests/Jobs.antt =====
-- The scheduler's theorems at concrete inputs.
use rpi_io_t_server_project.Base.{
  ◌≡◌, ◌+◌, refl, ◌&&◌, none, some, [], ◌∷◌, any, find?, leb, ltb, inr, arith, nat_eq, string_eq,
  pair_eq,
}
use rpi_io_t_server_project.Config.{defaults}
use rpi_io_t_server_project.Models.{Telemetry, Db}
use rpi_io_t_server_project.Session.{in_session, open_session}
use rpi_io_t_server_project.Worker.Heartbeat.{get_gateway}
use rpi_io_t_server_project.Worker.CommandResponse.{get_command}
use rpi_io_t_server_project.Scheduler.Offline
use rpi_io_t_server_project.Scheduler.Offline.Effect.{run_marks_offline, run_keeps_seen}
use rpi_io_t_server_project.Scheduler.Timeout
use rpi_io_t_server_project.Scheduler.Timeout.Effect.{run_times_out, run_keeps_answered}
use rpi_io_t_server_project.Scheduler.Partitions
use rpi_io_t_server_project.Scheduler.Partitions.{
  next_bound, advance, wanted, covers, index, create_partition, ensure, occupied, month_partition,
  lookahead_months,
}
use rpi_io_t_server_project.Scheduler.Partitions.Months.{any-covers-wanted}
use rpi_io_t_server_project.Scheduler.Partitions.Coverage.{AllExist, run_ensures}
use rpi_io_t_server_project.Tests.Data.{platform, noon, db, gateway, neighbour, command}

run_marks_offline_example :
    get_gateway 1 (in_session (Offline.run defaults noon) db).1
    ≡ some (record gateway { status = "offline" })
unfolding get_gateway find?
run_marks_offline_example = run_marks_offline defaults noon 1 gateway db (omega arith) refl refl tt

run_keeps_seen_example :
    get_gateway 2 (in_session (Offline.run defaults noon) db).1 ≡ some neighbour
unfolding get_gateway find?
run_keeps_seen_example =
    run_keeps_seen defaults noon 2 neighbour db (omega arith) refl (inr (omega arith))

run_times_out_example :
    get_command "cmd-1" (in_session (Timeout.run 63_930_000_000_000_001) db).1
    ≡ some (record command { status = "timeout"; completed_at = some 63_930_000_000_000_001 })
unfolding get_command find?
run_times_out_example =
    run_times_out 63_930_000_000_000_001 "cmd-1" command db refl (inr refl) (omega arith)

run_keeps_answered_example : get_command "cmd-1" (in_session (Timeout.run noon) db).1 ≡ some command
unfolding get_command find?
run_keeps_answered_example = run_keeps_answered noon "cmd-1" command db refl (inr (omega arith))

any-covers-wanted_example :
    any (covers (2027, 2)) (wanted 4 (2026, 11))
    ≡ (leb (index (2026, 11)) (index (2027, 2)) && ltb (index (2027, 2)) (index (2026, 11) + 4))
any-covers-wanted_example = any-covers-wanted 4 (2026, 11) (2027, 2) (omega arith, omega arith)

run_ensures_example :
    AllExist (wanted 4 (2026, 11)) (Partitions.run platform noon (open_session db)).1.committed
unfolding Partitions.run ensure create_partition wanted month_partition next_bound advance any
    occupied
run_ensures_example = run_ensures platform noon (open_session db) refl

-- A row of the current month, in the default partition.
abbrev early_row : Telemetry
early_row = record {
  id = 1;
  company_id = 10;
  site_id = none;
  gateway_id = 1;
  sensor_channel_id = 20;
  measurement_key = "temperature";
  ts = noon;
  value_double = some 7;
  value_text = none;
  value_bool = none;
  value_json = none;
  unit = none;
  quality = none;
  raw = none;
}

abbrev late_db : Db
late_db = record db { telemetry = early_row ∷ [] }
