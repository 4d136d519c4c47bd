-- ===== src/Prelude/Table.antt =====
-- Checks over every value of a small range, by evaluation.
use Prim.Native.Nat.{ℕ, zero, suc, ◌<◌}
use mathlib.Core.Bool.{Bool, true, ◌&&◌}
use mathlib.Core.Path.{◌≡◌}
use native.Mathlib.Omega.{arith}

unfoldable pub all_below : ℕ → (ℕ → Bool) → Bool
all_below zero test = true
all_below (suc bound) test = all_below bound test && test bound

-- Each value below the bound passes a test that was run on all of them.
pub all_below_sound :
    (bound : ℕ) (test : ℕ → Bool) (value : ℕ)
    → all_below bound test ≡ true
    → value < bound
    → test value ≡ true
unfolding all_below
all_below_sound zero test value passed small = absurd (omega arith)
all_below_sound (suc bound) test value passed small =
    let before = all_below_sound bound test value in ground (arith, before)
