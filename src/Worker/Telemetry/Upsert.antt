-- ===== src/Worker/Telemetry/Upsert.antt =====
-- The upsert of server/worker/handlers/telemetry.py, lines 85 to 109: INSERT ... ON CONFLICT DO
-- UPDATE ... WHERE telemetry_latest.ts < excluded.ts.
use rpi_io_t_server_project.Base.{
  Bool, ltb, ◌&&◌, List, [], ◌∷◌, ◌==◌, nat_eq, string_eq, if◌then◌else◌,
}
use rpi_io_t_server_project.Models.{TelemetryLatest}

-- The index elements of the conflict.
unfoldable pub same_key : TelemetryLatest → TelemetryLatest → Bool
same_key a b =
    a.gateway_id == b.gateway_id
    && (a.sensor_channel_id == b.sensor_channel_id && a.measurement_key == b.measurement_key)

-- The columns that a conflict overwrites, if the offered row is newer.
unfoldable pub overwrite : TelemetryLatest → TelemetryLatest → TelemetryLatest
overwrite old new =
    if ltb old.ts new.ts
    then record old {
      ts = new.ts;
      value_double = new.value_double;
      unit = new.unit;
      quality = new.quality;
    }
    else old

unfoldable pub upsert : TelemetryLatest → List TelemetryLatest → List TelemetryLatest
unfolding same_key overwrite
upsert new [] = new ∷ []
upsert new (old ∷ rows) =
    let rest = upsert new rows in if same_key old new then overwrite old new ∷ rows else old ∷ rest
