-- ===== src/Tests/Messages.antt =====
-- The worker's theorems at concrete inputs.
use rpi_io_t_server_project.Worker.Heartbeat
use rpi_io_t_server_project.Worker.Heartbeat.{get_gateway}
use rpi_io_t_server_project.Worker.Heartbeat.Effect.{heartbeat_on}
use rpi_io_t_server_project.Clock.{parse_iso8601, replace_z}
use rpi_io_t_server_project.Json.{get, lookup, truthy}
use rpi_io_t_server_project.Tests.Data.{gateway}
use rpi_io_t_server_project.Base.{
  String, ◌≡◌, ◌⊎◌, ◌+◌, eq_iff, inl, inr, refl, Option, none, some, find?, select, if◌then◌else◌,
  ◌==◌, ◌&&◌, [], ◌∷◌, ◌<>◌, nat_eq, string_eq, pair_eq, arith,
}
use rpi_io_t_server_project.Base.Dict
use rpi_io_t_server_project.Json.{Json, str, obj, field, end}
use rpi_io_t_server_project.Models.{Gateway, TelemetryLatest}
use rpi_io_t_server_project.Session.{in_session, scalar_one_or_none}
use rpi_io_t_server_project.Platform.{Platform, Uuid, Time, aware}
use rpi_io_t_server_project.Worker.Lookups.{
  Instant, Entry, Worker, gateway_uuid_by_serial, sensor_channel_uuid_by_slug, query_gateway,
  query_sensor_channel,
}
use rpi_io_t_server_project.Worker.Lookups.Staleness.{IsHonest, IsAnswer}
use rpi_io_t_server_project.Worker.Lookups.Fresh.{
  gateway_uuid_by_serial-IsAnswer, sensor_channel_uuid_by_slug-IsAnswer,
}
use rpi_io_t_server_project.Worker.CommandResponse
use rpi_io_t_server_project.Worker.CommandResponse.{get_command}
use rpi_io_t_server_project.Worker.CommandResponse.Isolation.{handle_isolated}
use rpi_io_t_server_project.Worker.Telemetry.Upsert.{upsert, same_key, overwrite}
use rpi_io_t_server_project.Worker.Telemetry.History.{store, IsNewest, store-IsNewest}
use rpi_io_t_server_project.Worker.Telemetry.Newest.{latest_of, latest_of-upsert}
use rpi_io_t_server_project.Worker.Topic.{
  match_topic, slug_char, kind_char, all_chars, is_empty, strip_gw, cut_slash, chomp,
}
use rpi_io_t_server_project.Worker.Topic.Groups.{IsWord, match_topic_complete, match_topic_sound}
use rpi_io_t_server_project.Worker.Dispatch.{Message, dispatch, resolved, deliver}
use rpi_io_t_server_project.Worker.Dispatch.Atomic.{dispatch_atomic}
use rpi_io_t_server_project.Tests.Data.{platform, noon, worker, db, command}

-- A telemetry message with no JSON in it.
abbrev garbage : Message
garbage = record { topic = "gw/GW-1/telemetry"; payload = []; now = noon }

dispatch_atomic_example :
    (dispatch platform garbage worker).1.session.committed ≡ worker.session.committed
unfolding dispatch match_topic gateway_uuid_by_serial query_gateway scalar_one_or_none select
    resolved deliver
dispatch_atomic_example = dispatch_atomic platform garbage worker (ground arith)

-- The response of another gateway to the command.
abbrev forged : Json
forged = obj (field "command_id" (str "cmd-1") end)

handle_isolated_example :
    get_command "cmd-1" (in_session (CommandResponse.handle platform noon 2 forged) db).1
    ≡ some command
unfolding get_command find?
handle_isolated_example =
    handle_isolated platform noon 2 forged "cmd-1" command db refl (ground arith)

abbrev reading : TelemetryLatest
reading = record {
  gateway_id = 1;
  sensor_channel_id = 20;
  measurement_key = "temperature";
  ts = noon;
  value_double = some 7;
  value_text = none;
  value_bool = none;
  value_json = none;
  unit = none;
  quality = some "good";
}

abbrev newer_reading : TelemetryLatest
newer_reading = record reading { ts = 63_930_000_000_000_001; value_double = some 8 }

latest_of-upsert_example :
    latest_of reading (upsert newer_reading (reading ∷ [])) ≡ some newer_reading
unfolding latest_of same_key overwrite find?
latest_of-upsert_example = latest_of-upsert reading newer_reading (reading ∷ [])

abbrev serials : Instant → String → Option Uuid
serials now serial = if serial == "GW-1" then some 1 else none

-- The serial was asked for at 3, and the clock read at 5.
abbrev known_gateway : Entry
known_gateway = record { found = some 1; expires_at = 60_000_005 }

abbrev knowing : Worker
knowing = record worker { gateway_cache = ("GW-1", known_gateway) ∷ [] }

serials_kept : IsHonest serials 2 5 knowing.gateway_cache
unfolding Dict.get
serials_kept = record {
  at_key = λ key entry got. (
    3,
    omega arith,
    ground (arith, eq_iff "GW-1" key),
    ground (arith, eq_iff "GW-1" key, eq_iff key "GW-1"),
  );
}

gateway_uuid_by_serial-IsAnswer_example :
    let (r, w') = gateway_uuid_by_serial "GW-1" knowing in
    IsAnswer serials 2 10 11 "GW-1" r w'.gateway_cache
unfolding query_gateway select scalar_one_or_none Dict.get
gateway_uuid_by_serial-IsAnswer_example =
    gateway_uuid_by_serial-IsAnswer serials 2 5 10 "GW-1" knowing (omega arith) (omega arith)
      (omega arith) (omega arith) serials_kept refl

abbrev slugs : Instant → Uuid × String → Option Uuid
slugs now (gateway_id, slug) = if gateway_id == 1 && slug == "env-1" then some 20 else none

-- An entry that expired while no message came.
abbrev old_channel : Entry
old_channel = record { found = some 20; expires_at = 60_000_005 }

abbrev idle : Worker
idle = record worker {
  sensor_channel_cache = ((1, "env-1"), old_channel) ∷ [];
  readings = λ n. n + 70_000_000;
}

slugs_kept : IsHonest slugs 2 5 idle.sensor_channel_cache
unfolding Dict.get
slugs_kept = record {
  at_key = λ (g, slug) entry got. (
    3,
    omega arith,
    ground (arith, eq_iff "env-1" slug),
    ground (arith, eq_iff "env-1" slug, eq_iff slug "env-1"),
  );
}

sensor_channel_uuid_by_slug-IsAnswer_example :
    let (r, w') = sensor_channel_uuid_by_slug 1 "env-1" idle in
    IsAnswer slugs 2 70_000_000 70_000_001 (1, "env-1") r w'.sensor_channel_cache
unfolding query_sensor_channel select scalar_one_or_none Dict.get
sensor_channel_uuid_by_slug-IsAnswer_example =
    sensor_channel_uuid_by_slug-IsAnswer slugs 2 5 70_000_000 1 "env-1" idle (omega arith)
      (omega arith) (omega arith) (omega arith) slugs_kept refl

serial-IsWord : IsWord slug_char "GW-1"
unfolding slug_char all_chars is_empty
serial-IsWord = record { nonempty = refl; chars = refl }

kind-IsWord : IsWord kind_char "command/response"
unfolding kind_char all_chars is_empty
kind-IsWord = record { nonempty = refl; chars = refl }

match_topic_complete_example :
    (match_topic ("gw/" <> ("GW-1" <> ("/" <> "command/response")))
      ≡ some ("GW-1", "command/response"))
    × (match_topic ("gw/" <> ("GW-1" <> ("/" <> ("command/response" <> "\n"))))
        ≡ some ("GW-1", "command/response"))
match_topic_complete_example =
    match_topic_complete "GW-1" "command/response" serial-IsWord kind-IsWord

match_topic_sound_example :
    IsWord slug_char "GW-1"
    × IsWord kind_char "heartbeat"
    × (("gw/GW-1/heartbeat" ≡ "gw/" <> ("GW-1" <> ("/" <> "heartbeat")))
        ⊎ ("gw/GW-1/heartbeat" ≡ "gw/" <> ("GW-1" <> ("/" <> ("heartbeat" <> "\n")))))
unfolding match_topic strip_gw cut_slash all_chars slug_char chomp kind_char is_empty
match_topic_sound_example = match_topic_sound "gw/GW-1/heartbeat" "GW-1" "heartbeat" refl

-- A platform that reads every text as the time an hour after noon, and a gateway that was offline.
abbrev one_o_clock : Time
one_o_clock = 63_930_003_600_000_000

abbrev reads_time : Platform
reads_time = record platform { fromisoformat = λ s. some (aware one_o_clock) }

abbrev lost : Gateway
lost = record gateway { status = "offline"; last_seen_at = some noon }

abbrev stamped : Json
stamped = obj (field "timestamp" (str "2026-11-20T13:00:00Z") end)

heartbeat_on_example :
    get_gateway 1
      (in_session
        (Heartbeat.handle reads_time noon 1 stamped)
        (record db { gateways = lost ∷ [] })).1
    ≡ some (record lost { last_seen_at = some one_o_clock; status = "online" })
unfolding get_gateway find? get lookup truthy parse_iso8601 replace_z
heartbeat_on_example =
    heartbeat_on reads_time noon stamped (record db { gateways = lost ∷ [] }) 1 lost
      (str "2026-11-20T13:00:00Z") one_o_clock refl refl refl

-- The newer reading arrives first.
store-IsNewest_example :
    (stored : TelemetryLatest) × (latest_of reading (store (newer_reading ∷ reading ∷ []) [])
      ≡ some stored)
    × IsNewest reading (newer_reading ∷ reading ∷ []) stored
unfolding same_key
store-IsNewest_example =
    store-IsNewest reading (newer_reading ∷ reading ∷ []) reading (inr (inl refl)) refl
