-- ===== src/Api/TelemetryQuery/Bounds.antt =====
-- What the two queries return.
use rpi_io_t_server_project.Base.{
  ℕ, zero, suc, ◌≤◌, ◌≡◌, refl, String, Bool, Option, List, [], ◌∷◌, map, select, leb, length,
  arith, ◌-◌, nat_eq, string_eq, ◌*◌,
}
use rpi_io_t_server_project.Base.Sort.{insert, order_by}
use rpi_io_t_server_project.Base.Exec.{ok}
use rpi_io_t_server_project.Models.{Db, Telemetry}
use rpi_io_t_server_project.Platform.{Uuid, Time}
use rpi_io_t_server_project.Scheduler.Offline.{before}
use rpi_io_t_server_project.Session.{Session}
use rpi_io_t_server_project.Api.Commands.Safety.{check_perm_reads}
use rpi_io_t_server_project.Api.TelemetryQuery.{
  TelemetryRow, row_of, take, in_range, valid_query, get_telemetry_range,
}

length-take : {A : Type 0} (n : ℕ) (xs : List A) → length (take n xs) ≤ n
unfolding take
length-take zero xs = omega arith
length-take (suc n) [] = omega arith
length-take (suc n) (x ∷ xs) = omega (arith, length-take n xs)

length-map : {A B : Type 0} (f : A → B) (xs : List A) → length (map f xs) ≡ length xs
length-map f [] = refl
length-map f (x ∷ xs) = omega (arith, length-map f xs)

-- The rows are in descending order of their times.
abbrev pub Descending : List TelemetryRow → Type 0
Descending [] = Unit
Descending (r ∷ []) = Unit
Descending (r ∷ r' ∷ rs) = (r'.ts ≤ r.ts) × Descending (r' ∷ rs)

-- No row is older than an instant.
abbrev pub NoneBefore : Time → List TelemetryRow → Type 0
NoneBefore since [] = Unit
NoneBefore since (r ∷ rs) = (since ≤ r.ts) × NoneBefore since rs

abbrev newer : Telemetry → Telemetry → Bool
newer a b = leb b.ts a.ts

insert-Descending :
    (x : Telemetry) (xs : List Telemetry)
    → Descending (map row_of xs)
    → Descending (map row_of (insert newer x xs))
unfolding insert
insert-Descending x [] h = tt
insert-Descending x (y ∷ []) h = ground arith
insert-Descending x (y ∷ z ∷ ys) h = ground (arith, insert-Descending x (z ∷ ys))

order_by-Descending : (xs : List Telemetry) → Descending (map row_of (order_by newer xs))
unfolding order_by
order_by-Descending [] = tt
order_by-Descending (x ∷ xs) = insert-Descending x (order_by newer xs) (order_by-Descending xs)

take-Descending :
    (n : ℕ) (xs : List Telemetry) → Descending (map row_of xs) → Descending (map row_of (take n xs))
unfolding take
take-Descending zero xs h = tt
take-Descending (suc n) [] h = tt
take-Descending (suc zero) (x ∷ []) h = tt
take-Descending (suc (suc n)) (x ∷ []) h = tt
take-Descending (suc zero) (x ∷ y ∷ ys) h = tt
take-Descending (suc (suc n)) (x ∷ y ∷ ys) h = (h.0, take-Descending (suc n) (y ∷ ys) h.1)

take-NoneBefore :
    (since : Time) (n : ℕ) (xs : List Telemetry)
    → NoneBefore since (map row_of xs)
    → NoneBefore since (map row_of (take n xs))
unfolding take
take-NoneBefore since zero xs h = tt
take-NoneBefore since (suc n) [] h = tt
take-NoneBefore since (suc n) (x ∷ xs) h = (h.0, take-NoneBefore since n xs h.1)

insert-NoneBefore :
    (since : Time) (x : Telemetry) (xs : List Telemetry)
    → since ≤ x.ts
    → NoneBefore since (map row_of xs)
    → NoneBefore since (map row_of (insert newer x xs))
unfolding insert
insert-NoneBefore since x [] le h = (le, tt)
insert-NoneBefore since x (y ∷ ys) le h = ground (arith, insert-NoneBefore since x ys le)

order_by-NoneBefore :
    (since : Time) (xs : List Telemetry)
    → NoneBefore since (map row_of xs)
    → NoneBefore since (map row_of (order_by newer xs))
unfolding order_by
order_by-NoneBefore since [] h = tt
order_by-NoneBefore since (x ∷ xs) h =
    insert-NoneBefore since x (order_by newer xs) h.0 (order_by-NoneBefore since xs h.1)

select-NoneBefore :
    (gateway_id : Uuid) (since : Time) (key : Option String) (xs : List Telemetry)
    → NoneBefore since (map row_of (select (in_range gateway_id since key) xs))
unfolding select in_range
select-NoneBefore gateway_id since key [] = tt
select-NoneBefore gateway_id since key (x ∷ xs) =
    ground (arith, select-NoneBefore gateway_id since key xs)

abbrev page : Uuid → Time → Option String → ℕ → Db → List TelemetryRow
page gateway_id since key limit db =
    map row_of (take limit (order_by newer (select (in_range gateway_id since key) db.telemetry)))

-- The rows of one answer.
pub record IsPage (since : Time) (limit : ℕ) (rows : List TelemetryRow) : Type 0 where
  pub bounded : length rows ≤ limit
  pub descending : Descending rows
  pub recent : NoneBefore since rows

page-IsPage :
    (gateway_id : Uuid) (since : Time) (key : Option String) (limit : ℕ) (db : Db)
    → IsPage since limit (page gateway_id since key limit db)
page-IsPage gateway_id since key limit db =
    let found = select (in_range gateway_id since key) db.telemetry in
    record {
      bounded = omega (
        arith,
        length-map row_of (take limit (order_by newer found)),
        length-take limit (order_by newer found),
      );
      descending = take-Descending limit (order_by newer found) (order_by-Descending found);
      recent =
          take-NoneBefore since limit (order_by newer found)
            (order_by-NoneBefore since found (select-NoneBefore gateway_id since key db.telemetry));
    }

module _ (now : Time) (user_id gateway_id : Uuid) (key : Option String) (hours limit : ℕ) where
  abbrev since : Time
  since = now - hours * 3600 * 1_000_000

  range_ok :
      (s : Session) (rows : List TelemetryRow)
      → (get_telemetry_range now user_id gateway_id key hours limit s).0 ≡ ok rows
      → (limit ≤ 10000) × (hours ≤ 720) × (rows ≡ page gateway_id since key limit s.working)
  unfolding get_telemetry_range valid_query before
  range_ok s rows h = ground (arith, check_perm_reads user_id gateway_id "view" s)

  -- If the query for the telemetry of a gateway answers with rows, its limit was at most 10000 and
  -- its hours at most 720, and the rows are at most `limit` many, in descending order of time, and
  -- none is older than the hours asked for.
  pub get_telemetry_range-IsPage :
      (s : Session) (rows : List TelemetryRow)
      → (get_telemetry_range now user_id gateway_id key hours limit s).0 ≡ ok rows
      → (limit ≤ 10000) × (hours ≤ 720) × IsPage since limit rows
  get_telemetry_range-IsPage s rows h =
      let (l, n, e) = range_ok s rows h in
      (l, n, rw e (page-IsPage gateway_id since key limit s.working))
