-- ===== src/System/Orders.antt =====
-- The two transactions of `issue_command`, by the statements that they write.
use rpi_io_t_server_project.Base.{◌≡◌, refl, String, true, some, arith}
use rpi_io_t_server_project.Base.Exec.{ok}
use rpi_io_t_server_project.Config.{Settings}
use rpi_io_t_server_project.Models.{Db, Command}
use rpi_io_t_server_project.Platform.{Platform, Uuid, Time}
use rpi_io_t_server_project.Schemas.{CommandIn}
use rpi_io_t_server_project.Session.{Session}
use rpi_io_t_server_project.Api.Commands.{prepare, new_command, command_fits, mark_published}
use rpi_io_t_server_project.Api.Commands.Safety.{check_perm_reads, new_command_reads}
use rpi_io_t_server_project.System.Writes
use rpi_io_t_server_project.System.Writes.{Write, IsClosed, KeepsCommand}
use rpi_io_t_server_project.System.Keeps.{Good, KeepsDb}

module _ (P : Db → Type 0) (closed : IsClosed P) where
  -- The columns of a new command that its foreign keys are about.
  new_command_keys :
      (p : Platform) (settings : Settings) (now : Time) (cmd_id : String)
      (user_id gateway_id : Uuid) (body : CommandIn) (s : Session) (cmd : Command)
      → (new_command p settings now cmd_id user_id gateway_id body s).0 ≡ ok cmd
      → (cmd.gateway_id ≡ gateway_id) × (cmd.actuator_channel_id ≡ some body.actuator_channel_id)
  unfolding new_command
  new_command_keys p settings now cmd_id user_id gateway_id body s cmd h =
      (ground arith, ground arith)

  pub prepare-KeepsDb :
      (p : Platform) (settings : Settings) (now : Time) (cmd_id : String)
      (user_id gateway_id : Uuid) (body : CommandIn)
      → KeepsDb P (prepare p settings now cmd_id user_id gateway_id body)
  unfolding prepare
  prepare-KeepsDb p settings now cmd_id user_id gateway_id body = record {
    at = λ s good. grind (
      arith,
      check_perm_reads,
      new_command_reads,
      new_command_keys p settings now cmd_id user_id gateway_id body,
      λ (d : Db) (c : Command) (h : c.actuator_channel_id ≡ some body.actuator_channel_id)
            (k : command_fits c c.gateway_id body.actuator_channel_id user_id d ≡ true).
          closed.keep d _ (Writes.add_command d c body.actuator_channel_id user_id h k),
    );
  }

  as_published : Command → Command
  as_published c = record c { status = "published" }

  -- The second transaction keeps what the others have kept.
  pub mark_published_keeps :
      (others : Db → Db) (cmd_id : String) (s : Session)
      → P (others s.committed)
      → Good P (mark_published others cmd_id s).1
  unfolding mark_published as_published
  mark_published_keeps others cmd_id s h = grind (
    arith,
    λ (d : Db). closed.keep d _ (
        Writes.change_command d cmd_id as_published
          (record { id = λ c. refl; gateway = λ c. refl })),
  )
