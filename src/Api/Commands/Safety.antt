-- ===== src/Api/Commands/Safety.antt =====
-- What `issue_command` stores and publishes, and for whom.
use rpi_io_t_server_project.Base.{String, ◌≡◌, ◌≢◌, Bool, nat_eq, arith}
use rpi_io_t_server_project.Base.Exec.{raised, http, Exc}
use rpi_io_t_server_project.Config.{Settings}
use rpi_io_t_server_project.Models.{Db}
use rpi_io_t_server_project.Platform.{Platform, Time, Uuid}
use rpi_io_t_server_project.Schemas.{CommandIn}
use rpi_io_t_server_project.Session.{Session}
use rpi_io_t_server_project.Api.Permission.{check_perm}
use rpi_io_t_server_project.Api.Commands.{Backend, new_command, prepare, publish, issue_command}

module _ (user_id gateway_id : Uuid) (required : String) where
  -- The check only reads.
  pub check_perm_reads : (s : Session) → (check_perm user_id gateway_id required s).1 ≡ s
  unfolding check_perm
  check_perm_reads s = ground arith

module _ (p : Platform) (settings : Settings) (now : Time) (cmd_id : String) where
  pub new_command_reads :
      (user_id gateway_id : Uuid) (body : CommandIn) (s : Session)
      → (new_command p settings now cmd_id user_id gateway_id body s).1 ≡ s
  unfolding new_command
  new_command_reads user_id gateway_id body s = ground arith

  prepare_atomic :
      (user_id gateway_id : Uuid) (body : CommandIn) (s : Session) {e : Exc}
      → (prepare p settings now cmd_id user_id gateway_id body s).0 ≡ raised e
      → (prepare p settings now cmd_id user_id gateway_id body s).1.committed ≡ s.committed
  unfolding prepare
  prepare_atomic user_id gateway_id body s h = grind (arith, check_perm_reads, new_command_reads)

module _ (p : Platform) (settings : Settings) (now : Time) (cmd_id : String) (others : Db → Db)
    (delivered : Bool) (user_id gateway_id : Uuid) (body : CommandIn) (b : Backend) where
  -- If `issue_command` ends in an error other than 503, the committed database is unchanged and
  -- nothing was published.
  pub issue_command_refused :
      {e : Exc}
      → (issue_command p settings now cmd_id others delivered user_id gateway_id body b).0
        ≡ raised e
      → e ≢ http 503
      → let b' =
          (issue_command p settings now cmd_id others delivered user_id gateway_id body b).1 in
        (b'.session.committed ≡ b.session.committed) × (b'.outbox ≡ b.outbox)
  unfolding issue_command publish
  issue_command_refused h ne = grind (arith, prepare_atomic)
