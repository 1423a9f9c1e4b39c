-- ===== src/Worker/CommandResponse.antt =====
-- server/worker/handlers/command_response.py: gw/{serial}/command/response.
pub mod Isolation
use rpi_io_t_server_project.Base.{
  String, Bool, not, Option, none, some, update, find?, ◌==◌, nat_eq, string_eq, if◌then◌else◌,
}
use rpi_io_t_server_project.Base.Exec.{
  Exec, Result, ok, raised, ◌>>=◌, ◌>>◌, pure, lift, raise, data_error,
}
use rpi_io_t_server_project.Json.{Json, str, get, get_or, truthy}
use rpi_io_t_server_project.Models.{Db, Command}
use rpi_io_t_server_project.Platform.{Platform, Uuid, Time}
use rpi_io_t_server_project.Clock.{parse_iso8601}
use rpi_io_t_server_project.Columns.{required_text, jsonb_value}
use rpi_io_t_server_project.Session.{Session, read, write, commit}

-- `session.get(Command, cmd_id)` for a text; the key column takes no other value.
unfoldable pub get_command : String → Db → Option Command
get_command cmd_id db = find? (λ c. c.id == cmd_id) db.commands

-- The UPDATE of one command.
unfoldable pub update_command : String → (Command → Command) → Db → Db
update_command cmd_id f db = record db { commands = update (λ c. c.id == cmd_id) f db.commands }

-- The columns that the UPDATE sets.
unfoldable pub answered : String → Json → Time → Command → Command
answered status response completed c = record c {
  status = status;
  response = some response;
  completed_at = some completed;
}

module _ (p : Platform) (now : Time) where
  -- What follows once the command is known: the gateway must be the one that it was sent to.
  unfoldable pub respond : Uuid → Json → String → Option Command → Exec Session (Unit {0})
  respond gateway_id body cmd_id none = pure tt
  respond gateway_id body cmd_id (some cmd) =
      if not (cmd.gateway_id == gateway_id) then pure tt else do
        new_status ← lift (get_or body "status" (str "executed"))
        executed_at ← lift (get body "executed_at")
        completed ← lift (parse_iso8601 p now executed_at)
        status ← lift (required_text p (some 32) new_status)
        response ← lift (jsonb_value p body)
        write (update_command cmd_id (answered status response completed))
        commit

  unfoldable pub handle : Uuid → Json → Exec Session (Unit {0})
  unfolding respond
  handle gateway_id body = do
    cmd_id ← lift (get body "command_id")
    if not (truthy cmd_id) then pure tt else elim cmd_id [
      | str k ↦ do found ← read (get_command k); respond gateway_id body k found
      | _ ↦ raise data_error
    ]
