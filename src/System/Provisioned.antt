-- ===== src/System/Provisioned.antt =====
-- The tables that no process writes.
use rpi_io_t_server_project.Base.{◌≡◌, refl, String, Bool}
use rpi_io_t_server_project.Config.{Settings}
use rpi_io_t_server_project.Json.{Json}
use rpi_io_t_server_project.Models.{Db}
use rpi_io_t_server_project.Platform.{Platform}
use rpi_io_t_server_project.Worker.Heartbeat.{update_gateway}
use rpi_io_t_server_project.Worker.CommandResponse.{update_command}
use rpi_io_t_server_project.Scheduler.Offline.{mark_offline}
use rpi_io_t_server_project.Scheduler.Timeout.{mark_timeout}
use rpi_io_t_server_project.Api.Gateways.{remove_gateway}
use rpi_io_t_server_project.System.Writes
use rpi_io_t_server_project.System.Writes.{Write, IsClosed}
use rpi_io_t_server_project.System.Steps.{Reach}
use rpi_io_t_server_project.System.Safety.{reach_keeps}

-- Users, company roles, gateway profiles and the audit log are those of another database.
abbrev pub IsProvisioned : Db → Db → Type 0
IsProvisioned o d =
    (d.users ≡ o.users)
    × (d.user_company_roles ≡ o.user_company_roles)
    × (d.gateway_profiles ≡ o.gateway_profiles)
    × (d.audit_logs ≡ o.audit_logs)

keep-Write : (o d d' : Db) → Write d d' → IsProvisioned o d → IsProvisioned o d'
unfolding update_gateway update_command remove_gateway mark_offline mark_timeout
keep-Write o d d' (Writes.add_company _ c) w = w
keep-Write o d d' (Writes.add_site _ c) w = w
keep-Write o d d' (Writes.add_sensor_profile _ c) w = w
keep-Write o d d' (Writes.add_gateway _ g h) w = w
keep-Write o d d' (Writes.add_permission _ r h) w = w
keep-Write o d d' (Writes.change_gateway _ k f h) w = w
keep-Write o d d' (Writes.drop_gateway _ k h) w = w
keep-Write o d d' (Writes.add_sensor _ c h) w = w
keep-Write o d d' (Writes.drop_sensor _ k) w = w
keep-Write o d d' (Writes.add_actuator _ c h) w = w
keep-Write o d d' (Writes.drop_actuator _ k h) w = w
keep-Write o d d' (Writes.add_command _ c ch u e h) w = w
keep-Write o d d' (Writes.change_command _ k f h) w = w
keep-Write o d d' (Writes.add_telemetry _ r e) w = w
keep-Write o d d' (Writes.set_latest _ r) w = w
keep-Write o d d' (Writes.offline_gateways _ t) w = w
keep-Write o d d' (Writes.timeout_commands _ now) w = w
keep-Write o d d' (Writes.add_partition _ part h) w = w

module _ (p : Platform) (settings : Settings) (schema_valid : Json → Bool)
    (name_le : String → String → Bool) {d d' : Db} where
  -- Whatever sequence of steps the processes take, the users, the company roles, the gateway
  -- profiles and the audit log are those of the first database.
  pub reach-IsProvisioned : Reach p settings schema_valid name_le d d' → IsProvisioned d d'
  reach-IsProvisioned r =
      reach_keeps p settings schema_valid name_le (IsProvisioned d) (record { keep = keep-Write d })
        r (refl, refl, refl, refl)
