-- ===== src/Worker/Lookups/Staleness.antt =====
-- How old an answer of the caches can be.
use rpi_io_t_server_project.Base.{
  ◌+◌, ◌≤◌, ◌≡◌, refl, inl, inr, Bool-cases, Option, none, some, ◌==◌, Eq, arith,
}
use rpi_io_t_server_project.Base.Dict
use rpi_io_t_server_project.Base.Dict.{Dict, get-set}
use rpi_io_t_server_project.Base.Exec.{Result, ok}
use rpi_io_t_server_project.Platform.{Uuid}
use rpi_io_t_server_project.Worker.Lookups.{
  Instant, Entry, Readings, ttl, expired, refill, answer, through_cache,
}

-- The reading that a query's answer is stored with: the second, if the first was for an entry.
abbrev pub storing : Readings → Option Entry → Instant
storing readings none = readings 0
storing readings (some entry) = readings 1

-- `truth` is what the database says of a key at each instant, and `delay` bounds the time from the
-- instant of a query to the reading of the clock that follows it.
module _ {K : Type 0} ⦃e : Eq K⦄ (truth : Instant → K → Option Uuid) (delay : Instant) where
  -- Every entry was true when it was queried, and its reading came after that, within the delay.
  pub record IsHonest (now : Instant) (cache : Dict K Entry) : Type 0 where
    pub at_key :
        (key : K) (entry : Entry)
        → Dict.get key cache ≡ some entry
        → (t : Instant) × (t ≤ now)
          × (entry.expires_at ≤ t + delay + ttl)
          × (truth t key ≡ entry.found)

  -- What a lookup has returned, and the cache that it leaves: `start` is the first reading, and
  -- `end` one that is after the query.
  pub record IsAnswer (start end : Instant) (key : K) (r : Result (Option Uuid))
      (cache : Dict K Entry) : Type 0 where
    pub found : Option Uuid
    pub returned : r ≡ ok found
    pub instant : Instant
    pub past : instant ≤ end
    pub recent : start ≤ instant + delay + ttl
    pub true_then : truth instant key ≡ found
    pub honest : IsHonest end cache

  stored : Instant → Instant → K → Entry
  stored asked read key = record { found = truth asked key; expires_at = read + ttl }

  -- Time goes by.
  pub later-IsHonest :
      (now end : Instant) (cache : Dict K Entry)
      → now ≤ end
      → IsHonest now cache
      → IsHonest end cache
  later-IsHonest now end cache le h = record {
    at_key =
        λ key entry got. let (t, past, e1, e2) = h.at_key key entry got in (t, omega arith, e1, e2);
  }

  -- A fresh answer may be stored.
  store-IsHonest :
      (asked read : Instant) (key : K) (cache : Dict K Entry)
      → asked ≤ read
      → read ≤ asked + delay
      → IsHonest read cache
      → IsHonest read (Dict.set key (stored asked read key) cache)
  unfolding stored
  store-IsHonest asked read key cache after soon h = record {
    at_key = λ k entry got. elim (Bool-cases (key == k)) [
      | inl same ↦
          let here = (e.beq_iff key k).0 same in
          (
            asked,
            after,
            ground (arith, get-set key k (stored asked read key) cache),
            ground (arith, get-set key k (stored asked read key) cache),
          )
      | inr other ↦ h.at_key k entry (ground (arith, get-set key k (stored asked read key) cache))
    ];
  }

  refill-IsAnswer :
      (start asked : Instant) (readings : Readings) (key : K) (cache : Dict K Entry)
      → start ≤ readings 0
      → asked ≤ readings 0
      → readings 0 ≤ asked + delay
      → IsHonest (readings 0) cache
      → let (r, cache', _) = refill readings key cache (ok (truth asked key)) in
        IsAnswer start (readings 0) key r cache'
  unfolding stored
  refill-IsAnswer start asked readings key cache first after soon h = record {
    found = truth asked key;
    returned = refl;
    instant = asked;
    past = after;
    recent = omega arith;
    true_then = refl;
    honest = store-IsHonest asked (readings 0) key cache after soon h;
  }

  answer_by :
      (now asked : Instant) (readings : Readings) (key : K) (cache : Dict K Entry)
      → (o : Option Entry) → Dict.get key cache ≡ o
      → now ≤ readings 0
      → readings 0 ≤ storing readings o
      → asked ≤ storing readings o
      → storing readings o ≤ asked + delay
      → IsHonest now cache
      → let (r, cache', _) = answer readings key (ok (truth asked key)) cache o in
        IsAnswer (readings 0) (storing readings o) key r cache'
  unfolding answer
  answer_by now asked readings key cache none got past first after soon h =
      refill-IsAnswer (readings 0) asked readings key cache (omega arith) after soon
        (later-IsHonest now (readings 0) cache past h)
  answer_by now asked readings key cache (some entry) got past first after soon h =
      let kept = later-IsHonest now (readings 1) cache (omega arith) h in
      elim (Bool-cases (expired (readings 0) entry)) [
        | inl old ↦ rw old (
            refill-IsAnswer (readings 0) asked (λ n. readings (n + 1)) key cache first after soon
              kept)
        | inr live ↦
            let (t, before, young, held) = kept.at_key key entry got in
            rw live (record {
              found = entry.found;
              returned = refl;
              instant = t;
              past = before;
              recent = unfold expired in ground arith;
              true_then = held;
              honest = kept;
            })
      ]

  pub through_cache-IsAnswer :
      (now asked : Instant) (readings : Readings) (key : K) (cache : Dict K Entry)
      → now ≤ readings 0
      → readings 0 ≤ storing readings (Dict.get key cache)
      → asked ≤ storing readings (Dict.get key cache)
      → storing readings (Dict.get key cache) ≤ asked + delay
      → IsHonest now cache
      → let (r, cache', _) = through_cache readings key (ok (truth asked key)) cache in
        IsAnswer (readings 0) (storing readings (Dict.get key cache)) key r cache'
  unfolding through_cache
  through_cache-IsAnswer now asked readings key cache past first after soon h =
      answer_by now asked readings key cache (Dict.get key cache) refl past first after soon h
