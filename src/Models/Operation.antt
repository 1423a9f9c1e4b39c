-- ===== src/Models/Operation.antt =====
-- server/app/models.py: telemetry, its newest values, commands and the audit log.
use rpi_io_t_server_project.Base.{ℕ, String, Bool, Option}
use rpi_io_t_server_project.Base.Int.{ℤ}
use rpi_io_t_server_project.Json.{Json, Double}
use rpi_io_t_server_project.Platform.{Uuid, Time}

-- A row of `telemetry`. The key is the pair of `id`, which the database counts, and `ts`.
pub record Telemetry : Type 0 where
  pub id : ℕ
  pub company_id : Uuid
  pub site_id : Option Uuid
  pub gateway_id : Uuid
  pub sensor_channel_id : Uuid
  pub measurement_key : String
  pub ts : Time
  pub value_double : Option Double
  pub value_text : Option String
  pub value_bool : Option Bool
  pub value_json : Option Json
  pub unit : Option String
  pub quality : Option String
  pub raw : Option Json

-- A row of `telemetry_latest`, keyed by gateway, channel and measurement.
pub record TelemetryLatest : Type 0 where
  pub gateway_id : Uuid
  pub sensor_channel_id : Uuid
  pub measurement_key : String
  pub ts : Time
  pub value_double : Option Double
  pub value_text : Option String
  pub value_bool : Option Bool
  pub value_json : Option Json
  pub unit : Option String
  pub quality : Option String

-- A row of `commands`.
-- The status is pending, published, executed, rejected, failed or timeout; the column takes any
-- text.
pub record Command : Type 0 where
  pub id : String
  pub gateway_id : Uuid
  pub actuator_channel_id : Option Uuid
  pub action : String
  pub issued_by : Option Uuid
  pub issued_at : Time
  pub expires_at : Time
  pub timeout_ms : ℤ
  pub require_ack : Bool
  pub reason : Option String
  pub status : String
  pub response : Option Json
  pub completed_at : Option Time

-- A row of `audit_logs`.
pub record AuditLog : Type 0 where
  pub id : Uuid
  pub user_id : Option Uuid
  pub action : String
  pub target_type : Option String
  pub target_id : Option String
  pub payload : Option Json
  pub ts : Time
