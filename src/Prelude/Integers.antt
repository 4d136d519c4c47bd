-- ===== src/Prelude/Integers.antt =====
-- Integers over the native numbers, for results of C functions that are negative on an error.
use Prim.Native.Nat.{ℕ, suc, ◌+◌, ◌-◌}
use mathlib.Core.Bool.{Bool, true, false}
use onion.Prelude.Tests.{ltb, if◌then◌else◌}

infixl 20 ◌+ℤ◌
-- `negsuc n` is -1 - n.
pub data ℤ : Type 0 where
  pos : ℕ → ℤ
  negsuc : ℕ → ℤ

abbrev pub ◌+ℤ◌ : ℤ → ℤ → ℤ
pos m +ℤ pos n = pos (m + n)
pos m +ℤ negsuc n = if ltb n m then pos (m - suc n) else negsuc (n - m)
negsuc m +ℤ pos n = if ltb m n then pos (n - suc m) else negsuc (m - n)
negsuc m +ℤ negsuc n = negsuc (suc (m + n))

abbrev pub is_negative : ℤ → Bool
is_negative (pos n) = false
is_negative (negsuc n) = true
