-- ===== src/Worker/Telemetry.antt =====
-- server/worker/handlers/telemetry.py: gw/{serial}/telemetry. Each value is a new row of
-- `telemetry`, and replaces the row of `telemetry_latest` of its key if it is newer.
pub mod Upsert
pub mod Newest
pub mod History
pub mod Atomic
use rpi_io_t_server_project.Base.{
  ℕ, ◌+◌, String, Bool, not, Option, none, some, List, [], ◌∷◌, ◌++◌, ◌==◌, string_eq,
  if◌then◌else◌,
}
use rpi_io_t_server_project.Base.Exec.{
  Exec, Result, ok, raised, ◌>>=◌, ◌>>◌, pure, lift, data_error,
}
use rpi_io_t_server_project.Json.{Json, Double, str, arr, nil, get, get_or, truthy, iterate}
use rpi_io_t_server_project.Models.{Db, Gateway, Telemetry, TelemetryLatest}
use rpi_io_t_server_project.Platform.{Platform, Uuid, Time}
use rpi_io_t_server_project.Clock.{parse_iso8601}
use rpi_io_t_server_project.Columns.{nullable_text, required_text, double_value, jsonb_value}
use rpi_io_t_server_project.Session.{Session, read, write, commit}
use rpi_io_t_server_project.Worker.Heartbeat.{get_gateway, update_gateway, seen}
use rpi_io_t_server_project.Worker.Lookups.{Instant, Worker, sensor_channel_uuid_by_slug}
use rpi_io_t_server_project.Worker.Telemetry.Upsert.{upsert}

-- A step that uses the session alone.
abbrev pub on_session : {A : Type 0} → Exec Session A → Exec Worker A
on_session m w = let (r, s) = m w.session in (r, record w { session = s })

-- One measurement, checked and converted.
pub record Measured : Type 0 where
  pub channel_id : Uuid
  pub measurement_key : String
  pub value_double : Option Double
  pub unit : Option String
  pub quality : Option String
  pub raw : Json

-- `session.add(Telemetry(...))`: the id comes from the sequence.
unfoldable pub insert_telemetry : Gateway → Uuid → Time → Measured → Db → Db
insert_telemetry gw gateway_id ts m db = record db {
  telemetry =
      db.telemetry
      ++ record {
        id = db.next_telemetry_id;
        company_id = gw.company_id;
        site_id = gw.site_id;
        gateway_id = gateway_id;
        sensor_channel_id = m.channel_id;
        measurement_key = m.measurement_key;
        ts = ts;
        value_double = m.value_double;
        value_text = none;
        value_bool = none;
        value_json = none;
        unit = m.unit;
        quality = m.quality;
        raw = some m.raw;
      }
        ∷ [];
  next_telemetry_id = db.next_telemetry_id + 1;
}

-- The row that the upsert offers to `telemetry_latest`.
abbrev pub latest_row : Uuid → Time → Measured → TelemetryLatest
latest_row gateway_id ts m = record {
  gateway_id = gateway_id;
  sensor_channel_id = m.channel_id;
  measurement_key = m.measurement_key;
  ts = ts;
  value_double = m.value_double;
  value_text = none;
  value_bool = none;
  value_json = none;
  unit = m.unit;
  quality = m.quality;
}

unfoldable pub upsert_latest : Uuid → Time → Measured → Db → Db
unfolding upsert
upsert_latest gateway_id ts m db = record db {
  telemetry_latest = upsert (latest_row gateway_id ts m) db.telemetry_latest;
}

module _ (p : Platform) where
  -- The columns of one measurement, for texts of the given lengths.
  unfoldable pub measure : Option ℕ → Option ℕ → Uuid → Json → Json → Exec Session Measured
  unfolding required_text nullable_text double_value
  measure key_length length channel_id key v = do
    value ← lift (get v "value")
    value_double ← lift (double_value p value)
    unit ← lift (get v "unit")
    quality ← lift (get_or v "quality" (str "good"))
    key_text ← lift (required_text p key_length key)
    unit_text ← lift (nullable_text p length unit)
    quality_text ← lift (nullable_text p length quality)
    raw ← lift (jsonb_value p v)
    pure (record {
      channel_id = channel_id;
      measurement_key = key_text;
      value_double = value_double;
      unit = unit_text;
      quality = quality_text;
      raw = raw;
    })

  -- A value of a known channel: INSERT, then UPSERT, whose columns are shorter.
  unfoldable pub store_known : Gateway → Uuid → Time → Uuid → Json → Exec Session ℕ
  store_known gw gateway_id ts channel_id v = do
    key ← lift (get_or v "measurement_key" (str ""))
    if not (truthy key) then pure 0 else do
      row ← measure none none channel_id key v
      write (insert_telemetry gw gateway_id ts row)
      latest ← measure (some 64) (some 32) channel_id key v
      write (upsert_latest gateway_id ts latest)
      pure 1

module _ (p : Platform) where
  -- One turn of the loop; 1 if the value was stored, and 0 at a `continue`.
  unfoldable pub store_value : Gateway → Uuid → Time → Json → Exec Worker ℕ
  unfolding store_known sensor_channel_uuid_by_slug
  store_value gw gateway_id ts v = do
    slug ← lift (get v "sensor_channel_id")
    elim slug [
      | str s ↦ if s == "" then pure 0 else do
        channel ← sensor_channel_uuid_by_slug gateway_id s
        elim channel [
          | none ↦ pure 0
          | some channel_id ↦ on_session (store_known p gw gateway_id ts channel_id v)
        ]
      | _ ↦ pure 0
    ]

  unfoldable pub store_values : Gateway → Uuid → Time → List Json → ℕ → Exec Worker ℕ
  store_values gw gateway_id ts [] inserted = pure inserted
  store_values gw gateway_id ts (v ∷ vs) inserted = do
    stored ← store_value gw gateway_id ts v
    store_values gw gateway_id ts vs (inserted + stored)

module _ (p : Platform) (now : Time) where
  -- The result is the number of values stored, which the source logs.
  unfoldable pub handle : Uuid → Json → Exec Worker ℕ
  unfolding get_gateway update_gateway
  handle gateway_id body = do
    values ← lift (get body "values")
    if not (truthy values) then pure 0 else do
      stamp ← lift (get body "timestamp")
      ts ← lift (parse_iso8601 p now stamp)
      found ← on_session (read (get_gateway gateway_id))
      elim found [
        | none ↦ pure 0
        | some gw ↦ do
          vs ← lift (iterate values)
          inserted ← store_values p gw gateway_id ts vs 0
          -- `if gw.status != "online"`: either way the status is now `online`.
          on_session (write (update_gateway gateway_id (seen ts "online")))
          on_session commit
          pure inserted
      ]
