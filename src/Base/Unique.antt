-- ===== src/Base/Unique.antt =====
-- Keys of tables: no two rows have the same key.
use mathlib.Core.Path.{◌≡◌, refl, ◌∙◌, fun_ext}
use mathlib.Core.Logic.{inl, inr}
use mathlib.Core.Bool.{Bool, true, false, ◌||◌}
use mathlib.Core.Option.{none, some}
use mathlib.Core.List.{List, [], ◌∷◌, ◌++◌}
use native.Mathlib.Omega.{arith}
use rpi_io_t_server_project.Base.Tests.{if◌then◌else◌, Bool-cases}
use rpi_io_t_server_project.Base.Rows.{any, update, delete, find?}

module _ {ℓ} {A : Type ℓ} where
  pub any-append : (p : A → Bool) (xs ys : List A) → any p (xs ++ ys) ≡ any p xs || any p ys
  unfolding any
  any-append p [] ys = refl
  any-append p (x ∷ xs) ys = ground (arith, any-append p xs ys)

  -- An update that keeps the answer of a test on each row keeps the answer of the search.
  pub any-update :
      (q p : A → Bool) (f : A → A) (xs : List A)
      → ((x : A) → q (f x) ≡ q x)
      → any q (update p f xs) ≡ any q xs
  unfolding any update
  any-update q p f [] h = refl
  any-update q p f (x ∷ xs) h = ground (arith, h x, any-update q p f xs h)

  -- What is left after a removal was there before.
  pub any-delete : (q p : A → Bool) (xs : List A) → any q xs ≡ false → any q (delete p xs) ≡ false
  unfolding any delete
  any-delete q p [] h = refl
  any-delete q p (x ∷ xs) h = ground (arith, any-delete q p xs)

  -- A search by a key that the update does not touch finds the updated row.
  pub find?-update :
      (q p : A → Bool) (f : A → A) (xs : List A)
      → ((x : A) → q (f x) ≡ q x)
      → find? q (update p f xs)
        ≡ elim (find? q xs) [ none ↦ none | some x ↦ some (if p x then f x else x) ]
  unfolding find? update
  find?-update q p f [] h = refl
  find?-update q p f (x ∷ xs) h = ground (arith, h x, find?-update q p f xs h)

  -- A search that never meets the rows of an update finds what it found before.
  pub find?-update_off :
      (q p : A → Bool) (f : A → A) (xs : List A)
      → ((x : A) → q (f x) ≡ q x)
      → ((x : A) → q x ≡ true → p x ≡ false)
      → find? q (update p f xs) ≡ find? q xs
  unfolding find? update
  find?-update_off q p f [] keeps off = refl
  find?-update_off q p f (x ∷ xs) keeps off =
      ground (arith, keeps x, off x, find?-update_off q p f xs keeps off)

  -- Where the row that is found passes the test of an update, the updated row is found.
  pub find?-update_on :
      (q p : A → Bool) (f : A → A) (xs : List A) (x : A)
      → ((x : A) → q (f x) ≡ q x)
      → find? q xs ≡ some x
      → p x ≡ true
      → find? q (update p f xs) ≡ some (f x)
  find?-update_on q p f xs x keeps found on = rw (find?-update q p f xs keeps, found, on)

  -- An update whose rows no longer pass its test leaves no row that does.
  pub any-update_self :
      (p : A → Bool) (f : A → A) (xs : List A)
      → ((x : A) → p (f x) ≡ false)
      → any p (update p f xs) ≡ false
  unfolding any update
  any-update_self p f [] h = refl
  any-update_self p f (x ∷ xs) h = elim (Bool-cases (p x)) [
    | inl hit ↦ rw hit (rw (h x) (any-update_self p f xs h))
    | inr miss ↦ rw miss (rw miss (any-update_self p f xs h))
  ]

module _ {ℓ} {A : Type ℓ} (same : A → A → Bool) where
  abbrev pub Unique : List A → Type 0
  Unique [] = Unit
  Unique (x ∷ xs) = (any (same x) xs ≡ false) × Unique xs

  -- A row may be added if its key is new.
  pub Unique-append :
      (xs : List A) (n : A) → any (λ x. same x n) xs ≡ false → Unique xs → Unique (xs ++ n ∷ [])
  unfolding any
  Unique-append [] n new u = ground arith
  Unique-append (x ∷ xs) n new (u, us) =
      ground (arith, any-append (same x) xs (n ∷ []), Unique-append xs n)

  head_update :
      (b : Bool) (p : A → Bool) (f : A → A) (x : A) (xs : List A)
      → ((y : A) → same (f x) y ≡ same x y)
      → ((y : A) → same x (f y) ≡ same x y)
      → any (same x) xs ≡ false
      → any (same (if b then f x else x)) (update p f xs) ≡ false
  head_update true p f x xs l r u = rw (fun_ext l) (any-update (same x) p f xs r ∙ u)
  head_update false p f x xs l r u = any-update (same x) p f xs r ∙ u

  pub Unique-update :
      (p : A → Bool) (f : A → A) (xs : List A)
      → ((x y : A) → same (f x) y ≡ same x y)
      → ((x y : A) → same x (f y) ≡ same x y)
      → Unique xs
      → Unique (update p f xs)
  unfolding update
  Unique-update p f [] l r u = tt
  Unique-update p f (x ∷ xs) l r (u, us) =
      (head_update (p x) p f x xs (l x) (r x) u, Unique-update p f xs l r us)

  pub Unique-delete : (p : A → Bool) (xs : List A) → Unique xs → Unique (delete p xs)
  unfolding delete
  Unique-delete p [] u = tt
  Unique-delete p (x ∷ xs) (u, us) =
      ground (arith, any-delete (same x) p xs u, Unique-delete p xs us)
