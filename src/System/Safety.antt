-- ===== src/System/Safety.antt =====
-- What no statement makes false stays true in every order of the processes' steps.
use rpi_io_t_server_project.Base.{◌≡◌, refl, arith, String, Bool}
use rpi_io_t_server_project.Base.Exec.{Exec, Result, ok, raised, continue, ◌>>◌, pure}
use rpi_io_t_server_project.Auth.{TokenPayload, user_by_sub, get_current_user}
use rpi_io_t_server_project.Config.{Settings}
use rpi_io_t_server_project.Json.{Json, null, bool, int, str, float, arr, obj}
use rpi_io_t_server_project.Models.{Db, User}
use rpi_io_t_server_project.Platform.{Platform, Time}
use rpi_io_t_server_project.Session.{Session, open_session}
use rpi_io_t_server_project.System.Writes.{IsClosed}
use rpi_io_t_server_project.System.Keeps.{Good, KeepsDb, itself, Keeps-bind}
use rpi_io_t_server_project.System.Requests
use rpi_io_t_server_project.System.Orders
use rpi_io_t_server_project.System.Processes
use rpi_io_t_server_project.System.Steps.{
  Job, offline_detector, command_timeout, partition_manager, Request, new_company, new_site,
  new_sensor_profile, registration, patch, removal, new_sensor, new_actuator, sensor_removal,
  actuator_removal, order, handler, serve, run_job, tick, Step, request, published, message, job,
  Reach, here, next,
}

module _ (p : Platform) (settings : Settings) (schema_valid : Json → Bool)
    (name_le : String → String → Bool) (P : Db → Type 0) (closed : IsClosed P) where
  discarded :
      {A : Type 0} (r : Result A) (s : Session) → Good P s → Good P (continue r (λ _. pure tt) s).1
  discarded (ok a) s good = good
  discarded (raised e) s good = good

  discard-KeepsDb : {A : Type 0} (m : Exec Session A) → KeepsDb P m → KeepsDb P (m >> pure tt)
  discard-KeepsDb m h = record { at = λ s good. discarded (m s).0 (m s).1 (h.at s good) }

  handler-KeepsDb :
      (r : Request) (user : User) → KeepsDb P (handler p settings schema_valid name_le r user)
  unfolding handler
  handler-KeepsDb (new_company id now body) user =
      discard-KeepsDb _ (Requests.create_company-KeepsDb P closed p id now body)
  handler-KeepsDb (new_site id now body) user =
      discard-KeepsDb _ (Requests.create_site-KeepsDb P closed p id now body)
  handler-KeepsDb (new_sensor_profile id now body) user =
      discard-KeepsDb _
        (Requests.create_sensor_profile-KeepsDb P closed p schema_valid name_le id now body)
  handler-KeepsDb (registration id perm_id now body) user =
      discard-KeepsDb _ (Requests.register_gateway-KeepsDb P closed p id perm_id now user.id body)
  handler-KeepsDb (patch gateway_id body) user =
      Requests.patch_gateway-KeepsDb P closed p user.id gateway_id body
  handler-KeepsDb (removal gateway_id) user =
      Requests.delete_gateway-KeepsDb P closed p user.id gateway_id
  handler-KeepsDb (new_sensor id now gateway_id body) user =
      discard-KeepsDb _
        (Requests.add_sensor_channel-KeepsDb P closed p id now user.id gateway_id body)
  handler-KeepsDb (new_actuator id now gateway_id body) user =
      discard-KeepsDb _
        (Requests.add_actuator_channel-KeepsDb P closed p id now user.id gateway_id body)
  handler-KeepsDb (sensor_removal channel_id) user =
      Requests.delete_sensor_channel-KeepsDb P closed p user.id channel_id
  handler-KeepsDb (actuator_removal channel_id) user =
      Requests.delete_actuator_channel-KeepsDb P closed p user.id channel_id
  handler-KeepsDb (order now cmd_id gateway_id body) user =
      discard-KeepsDb _
        (Orders.prepare-KeepsDb P closed p settings now cmd_id user.id gateway_id body)

  user_by_sub_reads : (sub : Json) (s : Session) → (user_by_sub sub s).1 ≡ s
  unfolding user_by_sub
  user_by_sub_reads (str sub) s = ground arith
  user_by_sub_reads null s = refl
  user_by_sub_reads (bool b) s = refl
  user_by_sub_reads (int n) s = refl
  user_by_sub_reads (float x) s = refl
  user_by_sub_reads (arr vs) s = refl
  user_by_sub_reads (obj fs) s = refl

  -- The look-up of the user only reads.
  get_current_user_reads : (token : TokenPayload) (s : Session) → (get_current_user token s).1 ≡ s
  unfolding get_current_user
  get_current_user_reads token s = ground (arith, user_by_sub_reads token.sub s)

  get_current_user-KeepsDb : (token : TokenPayload) → KeepsDb P (get_current_user token)
  get_current_user-KeepsDb token = record {
    at = λ s good. rw (get_current_user_reads token s) good;
  }

  serve-KeepsDb :
      (token : TokenPayload) (r : Request)
      → KeepsDb P (serve p settings schema_valid name_le token r)
  unfolding serve
  serve-KeepsDb token r =
      Keeps-bind itself P (get_current_user-KeepsDb token) (λ user. handler-KeepsDb r user)

  run_job-KeepsDb :
      (j : Job) (now : Time) → KeepsDb P (run_job p settings schema_valid name_le j now)
  unfolding run_job
  run_job-KeepsDb offline_detector now = Processes.offline-KeepsDb P closed settings now
  run_job-KeepsDb command_timeout now = Processes.timeout-KeepsDb P closed now
  run_job-KeepsDb partition_manager now = Processes.partitions-KeepsDb P closed p now

  step_keeps : {d d' : Db} → Step p settings schema_valid name_le d d' → P d → P d'
  unfolding tick
  step_keeps (request d token r) h =
      Processes.in_session_keeps P closed _ d (serve-KeepsDb token r) h
  step_keeps (published d cmd_id) h =
      (Orders.mark_published_keeps P closed (λ x. x) cmd_id (open_session d) h).0
  step_keeps (message d w m e) h = Processes.consume_one_keeps P closed p w m (rw e h)
  step_keeps (job d j now) h = Processes.in_session_keeps P closed _ d (run_job-KeepsDb j now) h

  pub reach_keeps : {d d' : Db} → Reach p settings schema_valid name_le d d' → P d → P d'
  reach_keeps here h = h
  reach_keeps (next r st) h = step_keeps st (reach_keeps r h)
