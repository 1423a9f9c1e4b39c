-- ===== src/Base/Int.antt =====
-- Integers over the native numbers.
use mathlib.Core.Path.{◌≡◌}
use mathlib.Core.List.{List, [], ◌∷◌}
use native.Mathlib.Omega.{arith}
use Prim.Native.Nat.{ℕ, ◌+◌, ◌-◌}
use rpi_io_t_server_project.Base.Tests.{if◌then◌else◌, leb}

-- `negsuc n` is -(n + 1).
pub data ℤ : Type 0 where
  pos : ℕ → ℤ
  negsuc : ℕ → ℤ

-- The difference of two numbers.
unfoldable pub diff : ℕ → ℕ → ℤ
diff a b = if leb b a then pos (a - b) else negsuc (b - a - 1)

infixl 6 ◌+ℤ◌
unfoldable pub ◌+ℤ◌ : ℤ → ℤ → ℤ
unfolding diff
pos a +ℤ pos b = pos (a + b)
pos a +ℤ negsuc b = diff a (b + 1)
negsuc a +ℤ pos b = diff b (a + 1)
negsuc a +ℤ negsuc b = negsuc (a + b + 1)

unfoldable pub sum_int : List ℤ → ℤ
unfolding ◌+ℤ◌
sum_int [] = pos 0
sum_int (x ∷ xs) = x +ℤ sum_int xs

pub pos-diff : (w a b : ℕ) → pos w +ℤ diff a b ≡ diff (w + a) b
unfolding ◌+ℤ◌ diff
pos-diff w a b = ground arith

pub diff_self : (a b : ℕ) → diff (a + b) a ≡ pos b
unfolding diff
diff_self a b = ground arith

pub zero-diff : (a b : ℕ) → diff a b +ℤ pos 0 ≡ diff a b
unfolding ◌+ℤ◌ diff
zero-diff a b = ground arith
