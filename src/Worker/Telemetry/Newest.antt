-- ===== src/Worker/Telemetry/Newest.antt =====
-- The table of newest values, key by key, through the upsert of Upsert.
use rpi_io_t_server_project.Base.{
  ltb, ◌≡◌, Option, none, some, List, [], ◌∷◌, nat_eq, string_eq, if◌then◌else◌, find?, Bool-cases,
  inl, inr, true, eq_iff, arith,
}
use rpi_io_t_server_project.Models.{TelemetryLatest}
use rpi_io_t_server_project.Worker.Telemetry.Upsert.{same_key, overwrite, upsert}

-- The row of a key, given by a row that has it.
unfoldable pub latest_of : TelemetryLatest → List TelemetryLatest → Option TelemetryLatest
unfolding find?
latest_of key rows = find? (λ r. same_key r key) rows

-- The newer of two rows of one key, the old one where they are of equal age. An upsert never sets
-- the columns for texts, Booleans and JSON, which a newer row takes over from the old one.
abbrev pub merge : Option TelemetryLatest → TelemetryLatest → TelemetryLatest
merge none new = new
merge (some old) new =
    if ltb old.ts new.ts
    then record new {
      value_text = old.value_text;
      value_bool = old.value_bool;
      value_json = old.value_json;
    }
    else old

same_parts :
    (a b : TelemetryLatest)
    → same_key a b ≡ true
    → (a.gateway_id ≡ b.gateway_id)
      × (a.sensor_channel_id ≡ b.sensor_channel_id)
      × (a.measurement_key ≡ b.measurement_key)
unfolding same_key
same_parts a b h = ground (arith, eq_iff a.measurement_key b.measurement_key)

-- Rows with one key have it in common with the same rows.
pub same_key_trans : (a b c : TelemetryLatest) → same_key a b ≡ true → same_key a c ≡ same_key b c
unfolding same_key
same_key_trans a b c h = let (g, s, m) = same_parts a b h in rw (g, s, m)

pub same_key_comm : (a b : TelemetryLatest) → same_key a b ≡ same_key b a
unfolding same_key
same_key_comm a b =
    ground (
      arith,
      eq_iff a.measurement_key b.measurement_key,
      eq_iff b.measurement_key a.measurement_key,
    )

pub same_key-overwrite :
    (old new key : TelemetryLatest) → same_key (overwrite old new) key ≡ same_key old key
unfolding same_key overwrite
same_key-overwrite old new key = ground arith

overwrite-merge :
    (old new : TelemetryLatest) → same_key old new ≡ true → overwrite old new ≡ merge (some old) new
unfolding overwrite
overwrite-merge old new same = let (g, c, m) = same_parts old new same in ground (arith, g, c, m)

-- After an upsert into `telemetry_latest`, the row of a key is what it was if the new row has
-- another key; if the new row has this key, it is the new row where there was none, the old row if
-- that is as new, and otherwise the new row with the text, Boolean and JSON values of the old one.
pub latest_of-upsert :
    (key new : TelemetryLatest) (rows : List TelemetryLatest)
    → latest_of key (upsert new rows)
      ≡ (if same_key new key then some (merge (latest_of key rows) new) else latest_of key rows)
unfolding latest_of upsert
latest_of-upsert key new [] = ground arith
latest_of-upsert key new (old ∷ rows) = elim (Bool-cases (same_key old new)) [
  | inl same ↦
      let e = same_key_trans old new key same in
      ground (arith, same_key-overwrite old new key, overwrite-merge old new same)
  | inr other ↦ elim (Bool-cases (same_key old key)) [
    | inl mine ↦ ground (arith, same_key_trans old key new mine, same_key_comm new key)
    | inr not_mine ↦ rw (other, not_mine) (latest_of-upsert key new rows)
  ]
]
