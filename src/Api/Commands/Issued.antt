-- ===== src/Api/Commands/Issued.antt =====
-- What a command that was accepted has become: a row of the database and a message to its gateway.
use rpi_io_t_server_project.Base.{
  String, ◌<>◌, ap, ◌≡◌, Bool, true, Option-cases, some, List, nat_eq, arith, inr, inl, Bool-cases,
  [], ◌∷◌, ◌++◌,
}
use rpi_io_t_server_project.Base.Outcome.{Result-cases}
use rpi_io_t_server_project.Base.Exec.{ok}
use rpi_io_t_server_project.Config.{Settings}
use rpi_io_t_server_project.Models.{Db, Command, Gateway, ActuatorChannel}
use rpi_io_t_server_project.Platform.{Platform, Time, Uuid}
use rpi_io_t_server_project.Schemas.{CommandIn, valid_command}
use rpi_io_t_server_project.Session.{Session}
use rpi_io_t_server_project.Api.Permission.{check_perm}
use rpi_io_t_server_project.Api.Permission.Access.{IsGranted, check_perm_sound}
use rpi_io_t_server_project.Api.Commands.{
  Backend, CommandMessage, get_actuator, message_of, prepare, publish, issue_command,
}
use rpi_io_t_server_project.Api.Commands.Safety.{check_perm_reads}

module _ (p : Platform) (settings : Settings) (now : Time) (cmd_id : String) where
  module _ (user_id gateway_id : Uuid) (body : CommandIn) (s : Session) where
    -- The row and the message of a command that passed every check.
    pub record IsPrepared (cmd : Command) (message : CommandMessage) : Type 0 where
      pub gw : Gateway
      pub granted : IsGranted user_id gateway_id "control" s.working gw
      pub actuator : ActuatorChannel
      pub listed : get_actuator body.actuator_channel_id s.working ≡ some actuator
      pub own : actuator.gateway_id ≡ gateway_id
      pub sent : message ≡ message_of gw actuator cmd user_id body
      pub topic : message.topic ≡ "gw/" <> (gw.serial_number <> "/command/request")
      pub command : message.command_id ≡ cmd.id
      pub target : message.actuator_channel_id ≡ actuator.slug
      pub action : message.action ≡ body.action

    prepare_sound :
        (cmd : Command) (message : CommandMessage)
        → (prepare p settings now cmd_id user_id gateway_id body s).0 ≡ ok (cmd, message)
        → IsPrepared cmd message
    unfolding prepare message_of
    prepare_sound cmd message h =
        elim (Result-cases (check_perm user_id gateway_id "control" s).0) [
          | inl (e, refused) ↦ absurd (ground arith)
          | inr (gw, granted) ↦
              let same = check_perm_reads user_id gateway_id "control" s in
              let g = check_perm_sound user_id gateway_id "control" s gw granted in
              elim (Option-cases (get_actuator body.actuator_channel_id s.working)) [
                | inl missing ↦ absurd (ground (arith, g.found))
                | inr (actuator, listed) ↦
                    let e : message ≡ message_of gw actuator cmd user_id body =
                      ground (arith, g.found) in
                    record {
                      gw = gw;
                      granted = g;
                      actuator = actuator;
                      listed = listed;
                      own = ground (arith, g.found);
                      sent = e;
                      topic = ap (λ (m : CommandMessage). m.topic) e;
                      command = ap (λ (m : CommandMessage). m.command_id) e;
                      target = ap (λ (m : CommandMessage). m.actuator_channel_id) e;
                      action = ap (λ (m : CommandMessage). m.action) e;
                    }
              ]
        ]

-- A prepared command that was published: what the backend answers, and its outbox.
published_sound :
    (others : Db → Db) (delivered : Bool) (cmd : Command) (message : CommandMessage) (b : Backend)
    (shown : Command)
    → (publish others delivered cmd message b).0 ≡ ok shown
    → (shown ≡ record cmd { status = "published" })
      × ((publish others delivered cmd message b).1.outbox ≡ b.outbox ++ message ∷ [])
unfolding publish
published_sound others delivered cmd message b shown h = ground arith

module _ (p : Platform) (settings : Settings) (now : Time) (cmd_id : String) (others : Db → Db)
    (delivered : Bool) (user_id gateway_id : Uuid) (body : CommandIn) (b : Backend) where
  -- What a command was that the backend answers with success.
  pub record IsIssued (shown : Command) (outbox : List CommandMessage) : Type 0 where
    pub valid : valid_command body ≡ true
    pub cmd : Command
    pub message : CommandMessage
    pub prepared : IsPrepared p settings now cmd_id user_id gateway_id body b.session cmd message
    pub answer : shown ≡ record cmd { status = "published" }
    pub posted : outbox ≡ b.outbox ++ message ∷ []

  -- If `issue_command` answers with a command, then its action was valid, the user had a row that
  -- gives `control` or `admin` on the gateway, the actuator belongs to that gateway, and exactly
  -- one message was added to what is published: it is the message of that command, its topic is
  -- gw/{serial}/command/request with the serial of the gateway, and it has the id of the command,
  -- the slug of the actuator and the action of the body. The answer is the command as published.
  pub issue_command_sound :
      (shown : Command)
      → (issue_command p settings now cmd_id others delivered user_id gateway_id body b).0
        ≡ ok shown
      → IsIssued shown
          (issue_command p settings now cmd_id others delivered user_id gateway_id body b).1.outbox
  unfolding issue_command
  issue_command_sound shown h =
      let prep = prepare p settings now cmd_id user_id gateway_id body b.session in
      elim (Bool-cases (valid_command body)) [
        | inr invalid ↦ absurd (ground arith)
        | inl valid ↦ elim (Result-cases prep.0) [
          | inl (e, refused) ↦ absurd (ground arith)
          | inr (pair, prepared) ↦
              let b' = record b { session = prep.1 } in
              let (answer, posted) =
                published_sound others delivered pair.0 pair.1 b' shown (ground arith) in
              record {
                valid = valid;
                cmd = pair.0;
                message = pair.1;
                prepared =
                    prepare_sound p settings now cmd_id user_id gateway_id body b.session pair.0
                      pair.1 prepared;
                answer = answer;
                posted = ground (arith, posted);
              }
        ]
      ]
