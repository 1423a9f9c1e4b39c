-- ===== src/Seed/Ensures.antt =====
-- What the statements of sim-seed.py ensure when they end well, in the database that the session
-- sees.
use rpi_io_t_server_project.Base.{
  ◌≡◌, refl, Bool, true, Option, none, some, Bool-cases, Option-cases, inl, inr, arith,
}
use rpi_io_t_server_project.Base.Exec.{Exec, Result, ok, raised, continue, ◌>>=◌}
use rpi_io_t_server_project.Models.{Db}
use rpi_io_t_server_project.Platform.{Uuid}
use rpi_io_t_server_project.Session.{Session}
use rpi_io_t_server_project.Seed.{find_or_insert, insert_unless}

pub record Ensures {A : Type 0} (P : Db → Type 0) (m : Exec Session A) (Q : A → Db → Type 0)
    : Type 0 where
  pub at : (s : Session) → P s.working → (a : A) → (m s).0 ≡ ok a → Q a (m s).1.working

continue_ensures :
    {A B : Type 0} {Q : A → Db → Type 0} {R : B → Db → Type 0} (r : Result A) (s : Session)
    (f : A → Exec Session B)
    → ((a : A) → r ≡ ok a → Q a s.working)
    → ((a : A) → Ensures (Q a) (f a) R)
    → (b : B) → (continue r f s).0 ≡ ok b
    → R b (continue r f s).1.working
continue_ensures (ok a) s f h k b e = (k a).at s (h a refl) b e
continue_ensures (raised x) s f h k b e = ground arith

pub Ensures-bind :
    {A B : Type 0} {P : Db → Type 0} {Q : A → Db → Type 0} {R : B → Db → Type 0}
    {m : Exec Session A} {f : A → Exec Session B}
    → Ensures P m Q
    → ((a : A) → Ensures (Q a) (f a) R)
    → Ensures P (m >>= f) R
Ensures-bind {m} {f} h k = record {
  at = λ s p b e. continue_ensures (m s).0 (m s).1 f (λ a r. h.at s p a r) k b e;
}

-- The code commits all that it wrote, if it ends well.
pub record Commits {A : Type 0} (m : Exec Session A) : Type 0 where
  pub all : (s : Session) (a : A) → (m s).0 ≡ ok a → (m s).1.committed ≡ (m s).1.working

continue-Commits :
    {A B : Type 0} (r : Result A) (s : Session) (f : A → Exec Session B)
    → ((a : A) → Commits (f a))
    → (b : B) → (continue r f s).0 ≡ ok b
    → (continue r f s).1.committed ≡ (continue r f s).1.working
continue-Commits (ok a) s f k b e = (k a).all s b e
continue-Commits (raised x) s f k b e = ground arith

-- It is enough that it ends with code that does.
pub Commits-bind :
    {A B : Type 0} (m : Exec Session A) {f : A → Exec Session B}
    → ((a : A) → Commits (f a))
    → Commits (m >>= f)
Commits-bind m {f} k = record { all = λ s b e. continue-Commits (m s).0 (m s).1 f k b e }

module _ (P : Db → Type 0) (insert : Db → Db) (fits : Db → Bool) where
  module _ (find : Db → Option Uuid) (new_id : Uuid) where
    pub find_or_insert-Ensures :
        ((d : Db) → P d → P (insert d))
        → ((d : Db) → find d ≡ none → find (insert d) ≡ some new_id)
        → Ensures P (find_or_insert find new_id fits insert) (λ a d. P d × (find d ≡ some a))
    unfolding find_or_insert
    find_or_insert-Ensures keeps finds = record {
      at = λ s p a e. elim (Option-cases (find s.working)) [
        | inr (id, found) ↦ rw found (p, ground arith)
        | inl missing ↦ elim (Bool-cases (fits s.working)) [
          | inl fit ↦ rw (missing, fit) (keeps s.working p, ground (arith, finds s.working missing))
          | inr unfit ↦ ground arith
        ]
      ];
    }

  module _ (conflict : Db → Bool) where
    pub insert_unless-Ensures :
        ((d : Db) → P d → P (insert d))
        → ((d : Db) → conflict (insert d) ≡ true)
        → Ensures P (insert_unless conflict fits insert) (λ a d. P d × (conflict d ≡ true))
    unfolding insert_unless
    insert_unless-Ensures keeps finds = record {
      at = λ s p a e. elim (Bool-cases (conflict s.working)) [
        | inl taken ↦ rw taken (p, taken)
        | inr free ↦ elim (Bool-cases (fits s.working)) [
          | inl fit ↦ rw (free, fit) (keeps s.working p, finds s.working)
          | inr unfit ↦ ground arith
        ]
      ];
    }
