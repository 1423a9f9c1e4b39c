-- ===== src/Worker/Telemetry/History.antt =====
-- The table of newest values after any sequence of upserts.
use rpi_io_t_server_project.Base.{
  ltb, ◌≡◌, ◌≤◌, ◌⊎◌, refl, ap, ◌∙◌, find?, Option, none, some, List, [], ◌∷◌, if◌then◌else◌,
  Bool-cases, inl, inr, true, false, arith,
}
use rpi_io_t_server_project.Models.{TelemetryLatest}
use rpi_io_t_server_project.Api.Permission.Access.{IsRow}
use rpi_io_t_server_project.Worker.Telemetry.Upsert.{same_key, upsert}
use rpi_io_t_server_project.Worker.Telemetry.Newest.{latest_of, latest_of-upsert, merge}

-- The offered rows, in the order in which they arrive.
unfoldable pub store : List TelemetryLatest → List TelemetryLatest → List TelemetryLatest
store [] rows = rows
store (new ∷ offered) rows = store offered (upsert new rows)

-- The columns that a row takes from the row that it was offered.
pub record IsFrom (offered stored : TelemetryLatest) : Type 0 where
  pub ts : stored.ts ≡ offered.ts
  pub value_double : stored.value_double ≡ offered.value_double
  pub unit : stored.unit ≡ offered.unit
  pub quality : stored.quality ≡ offered.quality

-- A stored row that holds the values of one of the offered rows of its key, and no older one.
pub record IsNewest (key : TelemetryLatest) (offered : List TelemetryLatest)
    (stored : TelemetryLatest) : Type 0 where
  pub origin : TelemetryLatest
  pub listed : IsRow origin offered
  pub keyed : same_key origin key ≡ true
  pub kept : IsFrom origin stored
  pub newest : (r : TelemetryLatest) → IsRow r offered → same_key r key ≡ true → r.ts ≤ stored.ts

module _ (key : TelemetryLatest) where
  -- One key of the table.
  merge_all : Option TelemetryLatest → List TelemetryLatest → Option TelemetryLatest
  merge_all o [] = o
  merge_all o (new ∷ offered) =
      merge_all (if same_key new key then some (merge o new) else o) offered

  latest_of-store :
      (offered rows : List TelemetryLatest)
      → latest_of key (store offered rows) ≡ merge_all (latest_of key rows) offered
  unfolding store merge_all
  latest_of-store [] rows = refl
  latest_of-store (new ∷ offered) rows =
      rw (latest_of-store offered (upsert new rows), latest_of-upsert key new rows)

  -- From a row on, what is stored is that row or a newer one that was offered.
  record IsLater (old : TelemetryLatest) (offered : List TelemetryLatest) (stored : TelemetryLatest)
      : Type 0 where
    later : old.ts ≤ stored.ts
    origin :
        IsFrom old stored
        ⊎ ((r : TelemetryLatest) × IsRow r offered × (same_key r key ≡ true) × IsFrom r stored)
    newest : (r : TelemetryLatest) → IsRow r offered → same_key r key ≡ true → r.ts ≤ stored.ts

  merge-IsFrom :
      (old new : TelemetryLatest)
      → IsFrom old (merge (some old) new) ⊎ IsFrom new (merge (some old) new)
  merge-IsFrom old new = elim (Bool-cases (ltb old.ts new.ts)) [
    | inl newer ↦
        inr (rw newer (record { ts = refl; value_double = refl; unit = refl; quality = refl }))
    | inr older ↦
        inl (rw older (record { ts = refl; value_double = refl; unit = refl; quality = refl }))
  ]

  merge_later :
      (old new : TelemetryLatest)
      → (old.ts ≤ (merge (some old) new).ts) × (new.ts ≤ (merge (some old) new).ts)
  merge_later old new = ground arith

  IsFrom-trans : {a b c : TelemetryLatest} → IsFrom a b → IsFrom b c → IsFrom a c
  IsFrom-trans h k = record {
    ts = ground (arith, h.ts, k.ts);
    value_double = ground (arith, h.value_double, k.value_double);
    unit = ground (arith, h.unit, k.unit);
    quality = ground (arith, h.quality, k.quality);
  }

  merge_all-IsLater :
      (offered : List TelemetryLatest) (old : TelemetryLatest)
      → (stored : TelemetryLatest) × (merge_all (some old) offered ≡ some stored)
        × IsLater old offered stored
  unfolding merge_all
  merge_all-IsLater [] old = (
    old,
    refl,
    record {
      later = omega arith;
      origin = inl (record { ts = refl; value_double = refl; unit = refl; quality = refl });
      newest = λ r m k. absurd m;
    },
  )
  merge_all-IsLater (new ∷ offered) old = elim (Bool-cases (same_key new key)) [
    | inr other ↦
        let (stored, e, h) = merge_all-IsLater offered old in
        (
          stored,
          rw other e,
          record {
            later = h.later;
            origin = elim h.origin [ inl o ↦ inl o | inr (r, m, k, f) ↦ inr (r, inr m, k, f) ];
            newest = λ r m k. elim m [
              | inl same ↦
                  absurd (ground (arith, ap (λ (z : TelemetryLatest). same_key z key) same))
              | inr rest ↦ h.newest r rest k
            ];
          },
        )
    | inl mine ↦
        let merged = merge (some old) new in
        let (stored, e, h) = merge_all-IsLater offered merged in
        let (low, high) = merge_later old new in
        (
          stored,
          rw mine e,
          record {
            later = ground (arith, low, h.later);
            origin = elim h.origin [
              | inl f ↦ elim (merge-IsFrom old new) [
                | inl o ↦ inl (IsFrom-trans o f)
                | inr n ↦ inr (new, inl refl, mine, IsFrom-trans n f)
              ]
              | inr (r, m, k, f) ↦ inr (r, inr m, k, f)
            ];
            newest = λ r m k. elim m [
              | inl same ↦ ground (arith, ap (λ (z : TelemetryLatest). z.ts) same, high, h.later)
              | inr rest ↦ h.newest r rest k
            ];
          },
        )
  ]

  first_stored :
      (offered : List TelemetryLatest) (r : TelemetryLatest)
      → IsRow r offered
      → same_key r key ≡ true
      → (stored : TelemetryLatest) × (merge_all none offered ≡ some stored)
        × IsNewest key offered stored
  unfolding merge_all
  first_stored [] r m k = absurd m
  first_stored (new ∷ offered) r m k = elim (Bool-cases (same_key new key)) [
    | inl mine ↦
        let (stored, e, h) = merge_all-IsLater offered new in
        let same_ts : (x : TelemetryLatest) → x ≡ new → x.ts ≤ stored.ts =
          λ x same. ground (arith, ap (λ (z : TelemetryLatest). z.ts) same, h.later) in
        (
          stored,
          rw mine e,
          elim h.origin [
            | inl f ↦ record {
              origin = new;
              listed = inl refl;
              keyed = mine;
              kept = f;
              newest = λ x l j. elim l [ inl same ↦ same_ts x same | inr rest ↦ h.newest x rest j ];
            }
            | inr (o, l, j, f) ↦ record {
              origin = o;
              listed = inr l;
              keyed = j;
              kept = f;
              newest = λ x l j. elim l [ inl same ↦ same_ts x same | inr rest ↦ h.newest x rest j ];
            }
          ],
        )
    | inr other ↦
        let differs : (x : TelemetryLatest) → x ≡ new → same_key x key ≡ false =
          λ x same. ap (λ (z : TelemetryLatest). same_key z key) same ∙ other in
        let rest : IsRow r offered = elim m [
          | inl same ↦ absurd (ground (arith, differs r same))
          | inr rest ↦ rest
        ] in
        let (stored, e, h) = first_stored offered r rest k in
        (
          stored,
          rw other e,
          record {
            origin = h.origin;
            listed = inr h.listed;
            keyed = h.keyed;
            kept = h.kept;
            newest = λ x l j. elim l [
              | inl same ↦ absurd (ground (arith, differs x same))
              | inr rest ↦ h.newest x rest j
            ];
          },
        )
  ]

  -- After any sequence of upserts into an empty `telemetry_latest`, in whatever order the rows
  -- arrive: for every key that a row of the sequence has, the table has a row; its time, number,
  -- unit and quality are those of one row of the sequence with this key, and no row of the
  -- sequence with this key is newer.
  pub store-IsNewest :
      (offered : List TelemetryLatest) (r : TelemetryLatest)
      → IsRow r offered
      → same_key r key ≡ true
      → (stored : TelemetryLatest) × (latest_of key (store offered []) ≡ some stored)
        × IsNewest key offered stored
  unfolding latest_of find?
  store-IsNewest offered r m k =
      let (stored, e, h) = first_stored offered r m k in (stored, latest_of-store offered [] ∙ e, h)
