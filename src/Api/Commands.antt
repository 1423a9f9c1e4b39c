-- ===== src/Api/Commands.antt =====
-- server/app/routers/commands.py with server/app/mqtt_publisher.py: a user's command is stored,
-- published to the gateway, and marked as published.
pub mod Race
pub mod Safety
pub mod Issued
use rpi_io_t_server_project.Base.{
  ℕ, ◌+◌, ◌-◌, ◌*◌, suc, String, ◌<>◌, Bool, true, false, not, any, leb, ltb, ◌&&◌, Option, none,
  some, List, [], ◌∷◌, ◌++◌, find?, ◌==◌, nat_eq, string_eq, if◌then◌else◌,
}
use rpi_io_t_server_project.Base.Int.{ℤ, pos, negsuc}
use rpi_io_t_server_project.Base.Exec.{
  Exec, Result, ok, raised, http, overflow_error, stale_data, ◌>>=◌, ◌>>◌, pure, raise, lift,
}
use rpi_io_t_server_project.Config.{Settings}
use rpi_io_t_server_project.Columns.{text_value, int4}
use rpi_io_t_server_project.Models.{Db, Command, ActuatorChannel, Gateway}
use rpi_io_t_server_project.Platform.{Platform, Uuid, Time}
use rpi_io_t_server_project.Schemas.{CommandIn, valid_command}
use rpi_io_t_server_project.Session.{Session, read, write, write_checked, commit}
use rpi_io_t_server_project.Worker.Heartbeat.{get_gateway}
use rpi_io_t_server_project.Worker.CommandResponse.{get_command, update_command}
use rpi_io_t_server_project.Api.Permission.{check_perm}

-- The last instant of the year 9999, `datetime.max`.
abbrev pub max_time : Time
max_time = 315_537_897_599_999_999

abbrev second : ℕ
second = 1_000_000

-- `now + timedelta(seconds=n)`, for any whole number of seconds.
unfoldable pub add_seconds : Time → ℤ → Result Time
add_seconds now (pos n) =
    if leb (now + n * second) max_time then ok (now + n * second) else raised overflow_error
add_seconds now (negsuc n) =
    if ltb now (suc n * second) then raised overflow_error else ok (now - suc n * second)

-- `body.expires_in_sec or settings.command_default_expires_sec`
unfoldable pub expiry_seconds : Settings → ℤ → ℤ
expiry_seconds settings (pos n) = if n == 0 then pos settings.command_default_expires_sec else pos n
expiry_seconds settings (negsuc n) = negsuc n

unfoldable pub get_actuator : Uuid → Db → Option ActuatorChannel
get_actuator channel_id db = find? (λ c. c.id == channel_id) db.actuator_channels

-- What is published: the topic, and the fields of the payload before they are written as text.
pub record CommandMessage : Type 0 where
  pub topic : String
  pub command_id : String
  pub gateway_id : String
  pub target_type : String
  pub actuator_channel_id : String
  pub action : String
  pub issued_by : Uuid
  pub issued_at : Time
  pub expires_at : Time
  pub timeout_ms : ℤ
  pub require_ack : Bool
  pub reason : String

-- The backend process: the session of the request, and what has been published.
pub record Backend : Type 0 where
  pub session : Session
  pub outbox : List CommandMessage

abbrev pub on_session : {A : Type 0} → Exec Session A → Exec Backend A
on_session m b = let (r, s) = m b.session in (r, record b { session = s })

-- The foreign keys and the primary key of a new command.
unfoldable pub command_fits : Command → Uuid → Uuid → Uuid → Db → Bool
command_fits cmd gateway_id channel_id user_id db =
    not (any (λ (c : Command). c.id == cmd.id) db.commands)
    && (any (λ (g : Gateway). g.id == gateway_id) db.gateways
        && (any (λ (c : ActuatorChannel). c.id == channel_id) db.actuator_channels
            && any (λ u. u.id == user_id) db.users))

unfoldable pub reason_text : Option String → String
reason_text none = ""
reason_text (some s) = s

unfoldable pub message_of : Gateway → ActuatorChannel → Command → Uuid → CommandIn → CommandMessage
unfolding reason_text
message_of gw actuator cmd user_id body = record {
  topic = "gw/" <> (gw.serial_number <> "/command/request");
  command_id = cmd.id;
  gateway_id = gw.serial_number;
  target_type = "actuator";
  actuator_channel_id = actuator.slug;
  action = body.action;
  issued_by = user_id;
  issued_at = cmd.issued_at;
  expires_at = cmd.expires_at;
  timeout_ms = body.timeout_ms;
  require_ack = body.require_ack;
  reason = reason_text body.reason;
}

-- The UPDATE of the second transaction names the status alone. The other processes may have
-- committed since the first: `others` is what they did to the database.
unfoldable pub mark_published : (Db → Db) → String → Exec Session (Unit {0})
unfolding update_command
mark_published others cmd_id s =
    let db = others s.committed in
    if any (λ (c : Command). c.id == cmd_id) db.commands
    then (
      ok tt,
      let db' = update_command cmd_id (λ c. record c { status = "published" }) db in
          record { committed = db'; working = db' },
    )
    else (raised stale_data, record { committed = db; working = db })

module _ (p : Platform) (settings : Settings) (now : Time) (cmd_id : String) where
  -- The row of a command, with the texts as their columns keep them.
  unfoldable pub new_command : Uuid → Uuid → CommandIn → Exec Session Command
  unfolding add_seconds expiry_seconds int4
  new_command user_id gateway_id body = do
    expires_at ← lift (add_seconds now (expiry_seconds settings body.expires_in_sec))
    action ← lift (text_value p (some 32) body.action)
    timeout_ms ← lift (int4 body.timeout_ms)
    pure (record {
      id = cmd_id;
      gateway_id = gateway_id;
      actuator_channel_id = some body.actuator_channel_id;
      action = action;
      issued_by = some user_id;
      issued_at = now;
      expires_at = expires_at;
      timeout_ms = timeout_ms;
      require_ack = body.require_ack;
      reason = body.reason;
      status = "pending";
      response = none;
      completed_at = none;
    })

  -- Up to the first commit.
  unfoldable pub prepare : Uuid → Uuid → CommandIn → Exec Session (Command × CommandMessage)
  prepare user_id gateway_id body = do
    checked ← check_perm user_id gateway_id "control"
    found ← read (get_gateway gateway_id)
    elim found [
      | none ↦ raise (http 404)
      | some gw ↦ do
        channel ← read (get_actuator body.actuator_channel_id)
        elim channel [
          | none ↦ raise (http 404)
          | some actuator ↦ if not (actuator.gateway_id == gateway_id) then raise (http 404) else do
            cmd ← new_command user_id gateway_id body
            write_checked (command_fits cmd gateway_id body.actuator_channel_id user_id)
                (λ db. record db { commands = db.commands ++ cmd ∷ [] })
            commit
            pure (cmd, message_of gw actuator cmd user_id body)
        ]
    ]

module _ (others : Db → Db) (delivered : Bool) where
  -- `mqtt_publisher.publish` and what follows it, up to the handler that answers any error by 503.
  -- `delivered` is whether there is a client and the broker took the message.
  unfoldable pub publish : Command → CommandMessage → Exec Backend Command
  publish cmd message b =
      if delivered
      then (let (r, s) = mark_published others cmd.id b.session in
          (
            elim r [
              | ok _ ↦ ok (record cmd { status = "published" })
              | raised e ↦ raised (http 503)
            ],
            record { session = s; outbox = b.outbox ++ message ∷ [] },
          ))
      else (raised (http 503), b)

module _ (p : Platform) (settings : Settings) (now : Time) (cmd_id : String) (others : Db → Db)
    (delivered : Bool) where
  unfoldable pub issue_command : Uuid → Uuid → CommandIn → Exec Backend Command
  issue_command user_id gateway_id body = if not (valid_command body) then raise (http 422) else do
    prepared ← on_session (prepare p settings now cmd_id user_id gateway_id body)
    publish others delivered prepared.0 prepared.1

-- `get_command`
unfoldable pub show_command : Uuid → String → Exec Session Command
unfolding get_command check_perm
show_command user_id command_id = do
  found ← read (get_command command_id)
  elim found [
    | none ↦ raise (http 404)
    | some cmd ↦ do checked ← check_perm user_id cmd.gateway_id "view"; pure cmd
  ]
