-- ===== src/System/Keeps.antt =====
-- Code whose writes are all statements of Writes: it keeps what no statement makes false, both in
-- the committed database and in the one that its session sees.
use rpi_io_t_server_project.Base.{
  ◌≡◌, Bool, true, false, Option, none, some, Bool-cases, inl, inr, if◌then◌else◌,
}
use rpi_io_t_server_project.Base.Exec.{
  Exec, Exc, Result, ok, raised, continue, ◌>>=◌, ◌>>◌, pure, raise, lift,
}
use rpi_io_t_server_project.Models.{Db}
use rpi_io_t_server_project.Session.{Session, read, write, write_checked, commit}

abbrev pub Good : (Db → Type 0) → Session → Type 0
Good P s = P s.committed × P s.working

module _ {S : Type 0} (view : S → Session) (P : Db → Type 0) where
  pub record Keeps {A : Type 0} (m : Exec S A) : Type 0 where
    pub at : (s : S) → Good P (view s) → Good P (view (m s).1)

  continue-Good :
      {A B : Type 0} (r : Result A) (s : S) (f : A → Exec S B)
      → ((a : A) → Keeps (f a))
      → Good P (view s)
      → Good P (view (continue r f s).1)
  continue-Good (ok a) s f h g = (h a).at s g
  continue-Good (raised e) s f h g = g

  pub Keeps-bind :
      {A B : Type 0} {m : Exec S A} {f : A → Exec S B}
      → Keeps m
      → ((a : A) → Keeps (f a))
      → Keeps (m >>= f)
  Keeps-bind {m} {f} h k = record { at = λ s g. continue-Good (m s).0 (m s).1 f k (h.at s g) }

  pub Keeps-then : {A B : Type 0} {m : Exec S A} {n : Exec S B} → Keeps m → Keeps n → Keeps (m >> n)
  Keeps-then {m} {n} h k = record {
    at = λ s g. continue-Good (m s).0 (m s).1 _ (λ _. k) (h.at s g);
  }

  pub Keeps-pure : {A : Type 0} {a : A} → Keeps (pure a)
  Keeps-pure = record { at = λ s g. g }

  pub Keeps-raise : {A : Type 0} {e : Exc} → Keeps {A = A} (raise e)
  Keeps-raise = record { at = λ s g. g }

  pub Keeps-lift : {A : Type 0} {r : Result A} → Keeps (lift r)
  Keeps-lift = record { at = λ s g. g }

  pub Keeps-if :
      {A : Type 0} (b : Bool) {m n : Exec S A} → Keeps m → Keeps n → Keeps (if b then m else n)
  Keeps-if true h k = h
  Keeps-if false h k = k

  pub Keeps-option :
      {A B : Type 0} (o : Option A) {m : Exec S B} {f : A → Exec S B}
      → Keeps m
      → ((a : A) → Keeps (f a))
      → Keeps (elim o [ none ↦ m | some a ↦ f a ])
  Keeps-option none h k = h
  Keeps-option (some a) h k = k a

abbrev pub itself : Session → Session
itself s = s

-- The code of one session.
abbrev pub KeepsDb : (Db → Type 0) → {A : Type 0} → Exec Session A → Type 0
KeepsDb P m = Keeps itself P m

module _ (P : Db → Type 0) where
  pub read-KeepsDb : {A : Type 0} (f : Db → A) → KeepsDb P (read f)
  read-KeepsDb f = record { at = λ s g. g }

  pub commit-KeepsDb : KeepsDb P commit
  commit-KeepsDb = record { at = λ s g. (g.1, g.1) }

  pub write-KeepsDb : {f : Db → Db} → ((d : Db) → P d → P (f d)) → KeepsDb P (write f)
  write-KeepsDb h = record { at = λ s g. (g.0, h s.working g.1) }

  pub write_checked-KeepsDb :
      {check : Db → Bool} {f : Db → Db}
      → ((d : Db) → check d ≡ true → P d → P (f d))
      → KeepsDb P (write_checked check f)
  write_checked-KeepsDb {check} {f} h = record {
    at = λ s g. elim (Bool-cases (check s.working)) [
      | inl holds ↦ rw holds (g.0, h s.working holds g.1)
      | inr fails ↦ rw fails g
    ];
  }
