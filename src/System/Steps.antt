-- ===== src/System/Steps.antt =====
-- The processes in any order: server/scheduler/main.py, the message loop of server/worker/main.py and
-- the requests to server/app. A request that only reads is no step.
use rpi_io_t_server_project.Base.{ℕ, ◌*◌, ◌≡◌, String, Bool}
use rpi_io_t_server_project.Base.Exec.{Exec, ◌>>=◌, ◌>>◌, pure}
use rpi_io_t_server_project.Auth.{TokenPayload, get_current_user}
use rpi_io_t_server_project.Config.{Settings}
use rpi_io_t_server_project.Json.{Json}
use rpi_io_t_server_project.Models.{Db, User}
use rpi_io_t_server_project.Platform.{Platform, Uuid, Time}
use rpi_io_t_server_project.Schemas.{
  CompanyIn, SiteIn, SensorProfileIn, GatewayIn, GatewayPatch, SensorChannelIn, ActuatorChannelIn,
  CommandIn,
}
use rpi_io_t_server_project.Session.{Session, in_session, open_session}
use rpi_io_t_server_project.Worker.Lookups.{Worker}
use rpi_io_t_server_project.Worker.Dispatch.{Message, consume_one}
use rpi_io_t_server_project.Scheduler.Offline
use rpi_io_t_server_project.Scheduler.Timeout
use rpi_io_t_server_project.Scheduler.Partitions
use rpi_io_t_server_project.Api.Assets.{create_company, create_site, create_sensor_profile}
use rpi_io_t_server_project.Api.Gateways.{register_gateway, patch_gateway, delete_gateway}
use rpi_io_t_server_project.Api.Channels.{
  add_sensor_channel, add_actuator_channel, delete_sensor_channel, delete_actuator_channel,
}
use rpi_io_t_server_project.Api.Commands.{prepare, mark_published}

-- The jobs that `_main` of the scheduler starts.
pub data Job : Type 0 where
  offline_detector command_timeout partition_manager : Job

-- Their intervals in seconds.
unfoldable pub interval_sec : Job → ℕ
interval_sec offline_detector = 30
interval_sec command_timeout = 10
interval_sec partition_manager = 6 * 3600

-- The requests that write, with the new identifiers. `order` is the first transaction of
-- `issue_command`.
pub data Request : Type 0 where
  new_company : (id : Uuid) (now : Time) (body : CompanyIn) → Request
  new_site : (id : Uuid) (now : Time) (body : SiteIn) → Request
  new_sensor_profile : (id : Uuid) (now : Time) (body : SensorProfileIn) → Request
  registration : (id perm_id : Uuid) (now : Time) (body : GatewayIn) → Request
  patch : (gateway_id : Uuid) (body : GatewayPatch) → Request
  removal : (gateway_id : Uuid) → Request
  new_sensor : (id : Uuid) (now : Time) (gateway_id : Uuid) (body : SensorChannelIn) → Request
  new_actuator : (id : Uuid) (now : Time) (gateway_id : Uuid) (body : ActuatorChannelIn) → Request
  sensor_removal actuator_removal : (channel_id : Uuid) → Request
  order : (now : Time) (cmd_id : String) (gateway_id : Uuid) (body : CommandIn) → Request

abbrev discard : {A : Type 0} → Exec Session A → Exec Session (Unit {0})
discard m = m >> pure tt

module _ (p : Platform) (settings : Settings) (schema_valid : Json → Bool)
    (name_le : String → String → Bool) where
  -- The handler of a request, for the user whom the token names.
  unfoldable pub handler : Request → User → Exec Session (Unit {0})
  handler (new_company id now body) user = discard (create_company p id now body)
  handler (new_site id now body) user = discard (create_site id now body)
  handler (new_sensor_profile id now body) user =
      discard (create_sensor_profile p schema_valid name_le id now body)
  handler (registration id perm_id now body) user =
      discard (register_gateway id perm_id now user.id body)
  handler (patch gateway_id body) user = patch_gateway p user.id gateway_id body
  handler (removal gateway_id) user = delete_gateway user.id gateway_id
  handler (new_sensor id now gateway_id body) user =
      discard (add_sensor_channel p id now user.id gateway_id body)
  handler (new_actuator id now gateway_id body) user =
      discard (add_actuator_channel p id now user.id gateway_id body)
  handler (sensor_removal channel_id) user = delete_sensor_channel user.id channel_id
  handler (actuator_removal channel_id) user = delete_actuator_channel user.id channel_id
  handler (order now cmd_id gateway_id body) user =
      discard (prepare p settings now cmd_id user.id gateway_id body)

  -- A request with its token's claims: the dependency `get_current_user` runs first, in the same
  -- session.
  unfoldable pub serve : TokenPayload → Request → Exec Session (Unit {0})
  unfolding get_current_user handler
  serve token r = do user ← get_current_user token; handler r user

  unfoldable pub run_job : Job → Time → Exec Session (Unit {0})
  run_job offline_detector now = Offline.run settings now
  run_job command_timeout now = Timeout.run now
  run_job partition_manager now = Partitions.run p now

  -- One round of `_tick`: a session of its own, and an exception is only logged.
  unfoldable pub tick : Job → Time → Db → Db
  unfolding run_job
  tick job now db = (in_session (run_job job now) db).1

  -- The caches of the worker may hold anything when a message comes.
  pub data Step : Db → Db → Type 0 where
    request :
        (d : Db) (token : TokenPayload) (r : Request) → Step d (in_session (serve token r) d).1
    published :
        (d : Db) (cmd_id : String)
        → Step d (mark_published (λ x. x) cmd_id (open_session d)).1.committed
    message :
        (d : Db) (w : Worker) (m : Message)
        → w.session.committed ≡ d
        → Step d (consume_one p w m).session.committed
    job : (d : Db) (j : Job) (now : Time) → Step d (tick j now d)

  -- Any number of steps.
  pub data Reach (d : Db) : Db → Type 0 where
    here : Reach d d
    next : {d' d'' : Db} → Reach d d' → Step d' d'' → Reach d d''
