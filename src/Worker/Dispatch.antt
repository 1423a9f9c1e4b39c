-- ===== src/Worker/Dispatch.antt =====
-- server/worker/handlers/__init__.py and the message loop of server/worker/main.py.
pub mod Atomic
use rpi_io_t_server_project.Base.{
  ℕ, String, Bool, ◌||◌, Option, none, some, List, [], ◌∷◌, ◌==◌, string_eq, if◌then◌else◌,
}
use rpi_io_t_server_project.Base.Exec.{Exec, Exc, unicode_error, ◌>>=◌, ◌>>◌, pure, raise}
use rpi_io_t_server_project.Json.{Json}
use rpi_io_t_server_project.Models.{Db}
use rpi_io_t_server_project.Platform.{Platform, Uuid, Time, Loaded, loaded, bad_json, bad_unicode}
use rpi_io_t_server_project.Session.{Session, open_session}
use rpi_io_t_server_project.Worker.Lookups.{Instant, Worker, gateway_uuid_by_serial}
use rpi_io_t_server_project.Worker.Topic.{match_topic}
use rpi_io_t_server_project.Worker.Heartbeat
use rpi_io_t_server_project.Worker.State
use rpi_io_t_server_project.Worker.CommandResponse
use rpi_io_t_server_project.Worker.Telemetry
use rpi_io_t_server_project.Worker.Telemetry.{on_session}

-- What `dispatch` did with a message, as its log says.
pub data Outcome : Type 0 where
  unrecognized_topic unknown_serial not_json unhandled_kind unknown_kind : Outcome
  handled : Outcome

-- A message of the broker, and the time of its arrival.
pub record Message : Type 0 where
  pub topic : String
  pub payload : List ℕ
  pub now : Time

abbrev pub done : {A : Type 0} → Exec Worker A → Exec Worker Outcome
done m = m >> pure handled

module _ (p : Platform) where
  unfoldable pub route : String → Uuid → Json → Message → Exec Worker Outcome
  route kind gateway_id body m =
      if kind == "telemetry"
      then done (Telemetry.handle p m.now gateway_id body)
      else if kind == "state"
      then done (on_session (State.handle p m.now gateway_id body))
      else if kind == "heartbeat"
      then done (on_session (Heartbeat.handle p m.now gateway_id body))
      else if kind == "command/response"
      then done (on_session (CommandResponse.handle p m.now gateway_id body))
      else if kind == "event" || kind == "ota/status" || kind == "config/reported"
      then pure unhandled_kind
      else pure unknown_kind

  -- After `json.loads`.
  unfoldable pub deliver : String → Uuid → Message → Loaded → Exec Worker Outcome
  deliver kind gateway_id m (loaded body) = route kind gateway_id body m
  deliver kind gateway_id m bad_json = pure not_json
  deliver kind gateway_id m bad_unicode = raise unicode_error

  -- After the lookup of the serial.
  unfoldable pub resolved : String → Message → Option Uuid → Exec Worker Outcome
  resolved kind m none = pure unknown_serial
  resolved kind m (some gateway_id) = deliver kind gateway_id m (p.loads m.payload)

  unfoldable pub dispatch : Message → Exec Worker Outcome
  dispatch m = elim (match_topic m.topic) [
    | none ↦ pure unrecognized_topic
    | some (serial, kind) ↦ do found ← gateway_uuid_by_serial serial; resolved kind m found
  ]

  -- One turn of `async for msg in client.messages`: a session of its own, and an exception ends
  -- the message and not the loop. Closing the session drops what was not committed.
  unfoldable pub consume_one : Worker → Message → Worker
  consume_one w m =
      let (_, w') = dispatch m (record w { session = open_session w.session.committed }) in
      record w' { session = open_session w'.session.committed }

  -- The messages in the order of their arrival.
  unfoldable pub consume : Worker → List Message → Worker
  unfolding consume_one
  consume w [] = w
  consume w (m ∷ ms) = consume (consume_one w m) ms
