-- ===== src/Base/Exec.antt =====
-- Code with a state and exceptions: an exception leaves behind what was written until then.
use Prim.Native.Nat.{ℕ}

-- The exceptions that the modelled code raises, or that reach it from its libraries.
pub data Exc : Type 0 where
  attribute_error type_error value_error overflow_error runtime_error : Exc
  unicode_error data_error integrity_error multiple_results stale_data : Exc
  index_error key_error zero_division_error : Exc
  http : ℕ → Exc

pub data Result {ℓ} (A : Type ℓ) : Type ℓ where
  ok : A → Result A
  raised : Exc → Result A

abbrev pub Exec {ℓ} : Type ℓ → Type ℓ → Type ℓ
Exec S A = S → Result A × S

module _ {ℓ} {S A : Type ℓ} where
  abbrev pub lift : Result A → Exec S A
  lift outcome state = (outcome, state)

  abbrev pub raise : Exc → Exec S A
  raise e state = (raised e, state)

  abbrev pub pure : A → Exec S A
  pure a state = (ok a, state)

  abbrev pub gets : (S → A) → Exec S A
  gets f state = (ok (f state), state)

module _ {ℓ} {S A B : Type ℓ} where
  abbrev pub continue : Result A → (A → Exec S B) → Exec S B
  continue (ok a) f s = f a s
  continue (raised e) f s = (raised e, s)

  infixl 5 ◌>>=◌ ◌>>◌
  abbrev pub ◌>>=◌ : Exec S A → (A → Exec S B) → Exec S B
  ◌>>=◌ m f s = let (r, s') = m s in continue r f s'

  abbrev pub ◌>>◌ : Exec S A → Exec S B → Exec S B
  m >> n = m >>= λ _. n

abbrev pub modify : {S : Type 0} → (S → S) → Exec S (Unit {0})
modify f s = (ok tt, f s)
