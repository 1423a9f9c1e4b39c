-- ===== src/Scheduler/Partitions/Coverage.antt =====
-- What a run of the partition manager leaves behind.
use rpi_io_t_server_project.Base.{
  ◌≡◌, refl, Bool, true, List, [], ◌∷◌, any, arith, ◌==◌, nat_eq, pair_eq, beq_refl,
}
use rpi_io_t_server_project.Base.Exec.{Exec, Exc, Result, ok, raised, continue}
use rpi_io_t_server_project.Base.Unique.{any-append}
use rpi_io_t_server_project.Models.{Db}
use rpi_io_t_server_project.Platform.{Platform, Time}
use rpi_io_t_server_project.Session.{Session}
use rpi_io_t_server_project.Scheduler.Partitions.{Month, wanted, create_partition, ensure, run}

-- There is a partition with the name of the given one.
abbrev pub exists : Month × Month → Db → Bool
exists part db = any (λ (q : Month × Month). q.0 == part.0) db.partitions

-- Each of the partitions is there.
abbrev pub AllExist : List (Month × Month) → Db → Type 0
AllExist [] db = Unit
AllExist (part ∷ parts) db = (exists part db ≡ true) × AllExist parts db

first_ok :
    {B : Type 0} (r : Result Unit) (f : Unit → Exec Session B) (s : Session) {b : B}
    → (continue r f s).0 ≡ ok b
    → r ≡ ok tt
first_ok (ok a) f s h = refl
first_ok (raised e) f s h = absurd (ground arith)

module _ (p : Platform) where
  create_partition_exists :
      (part : Month × Month) (s : Session)
      → (create_partition p part s).0 ≡ ok tt
      → exists part (create_partition p part s).1.working ≡ true
  unfolding create_partition any
  create_partition_exists part s h = grind (
    arith,
    any-append (λ (q : Month × Month). q.0 == part.0) s.working.partitions (part ∷ []),
    beq_refl part.0,
  )

  create_partition_keeps :
      (part other : Month × Month) (s : Session)
      → exists other s.working ≡ true
      → exists other (create_partition p part s).1.working ≡ true
  unfolding create_partition
  create_partition_keeps part other s h =
      grind
        (arith, any-append (λ (q : Month × Month). q.0 == other.0) s.working.partitions (part ∷ []))

  ensure_keeps :
      (parts : List (Month × Month)) (other : Month × Month) (s : Session)
      → exists other s.working ≡ true
      → exists other (ensure p parts s).1.working ≡ true
  unfolding ensure
  ensure_keeps [] other s h = h
  ensure_keeps (part ∷ parts) other s h =
      let kept = create_partition_keeps part other s h in
      let (r, s') = create_partition p part s in grind (arith, ensure_keeps parts other s')

  ensure_quiet :
      (parts : List (Month × Month)) (s : Session) → (ensure p parts s).1.committed ≡ s.committed
  unfolding ensure create_partition
  ensure_quiet [] s = refl
  ensure_quiet (part ∷ parts) s = grind (arith, ensure_quiet parts)

  ensure_exists :
      (parts : List (Month × Month)) (s : Session)
      → (ensure p parts s).0 ≡ ok tt
      → AllExist parts (ensure p parts s).1.working
  unfolding ensure
  ensure_exists [] s h = tt
  ensure_exists (part ∷ parts) s h =
      let (r, s') = create_partition p part s in
      let ends : r ≡ ok tt = first_ok r (λ _. ensure p parts) s' h in
      let rest : (ensure p parts s').0 ≡ ok tt = ground arith in
      let made = ensure_keeps parts part s' (create_partition_exists part s ends) in
      rw ends (made, ensure_exists parts s' rest)

  -- If a run of the partition manager ends without an error, the committed database has a
  -- partition under the name of each of the four months from the current one on.
  pub run_ensures :
      (now : Time) (s : Session)
      → (run p now s).0 ≡ ok tt
      → AllExist (wanted 4 (p.year_month now)) (run p now s).1.committed
  unfolding run
  run_ensures now s h =
      let (r, s') = ensure p (wanted 4 (p.year_month now)) s in
      let ends : r ≡ ok tt = first_ok r _ s' h in
      rw ends (ensure_exists (wanted 4 (p.year_month now)) s ends)

  -- If a run of the partition manager raises, it has committed nothing.
  pub run_atomic :
      (now : Time) (s : Session) {e : Exc}
      → (run p now s).0 ≡ raised e
      → (run p now s).1.committed ≡ s.committed
  unfolding run
  run_atomic now s h = grind (arith, ensure_quiet)
