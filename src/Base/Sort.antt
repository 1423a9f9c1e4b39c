-- ===== src/Base/Sort.antt =====
-- ORDER BY: a stable insertion sort by a Boolean order.
use mathlib.Core.Bool.{Bool}
use mathlib.Core.List.{List, [], ◌∷◌}
use rpi_io_t_server_project.Base.Tests.{if◌then◌else◌}

module _ {ℓ} {A : Type ℓ} (le : A → A → Bool) where
  unfoldable pub insert : A → List A → List A
  insert x [] = x ∷ []
  insert x (y ∷ ys) = let rest = insert x ys in if le x y then x ∷ (y ∷ ys) else y ∷ rest

  unfoldable pub order_by : List A → List A
  unfolding insert
  order_by [] = []
  order_by (x ∷ xs) = insert x (order_by xs)
