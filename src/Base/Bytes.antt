-- ===== src/Base/Bytes.antt =====
-- A fact about every byte by evaluation at each of the 256 values.
use Prim.Native.Nat.{ℕ, zero, suc, ◌<◌}
use mathlib.Core.Path.{◌≡◌}
use mathlib.Core.Bool.{Bool, true, ◌&&◌}
use native.Mathlib.Omega.{arith}

unfoldable pub all_below : ℕ → (ℕ → Bool) → Bool
all_below zero holds = true
all_below (suc count) holds = holds count && all_below count holds

pub all_below_sound :
    (count : ℕ) (holds : ℕ → Bool) (k : ℕ)
    → all_below count holds ≡ true
    → k < count
    → holds k ≡ true
unfolding all_below
all_below_sound zero holds k table low = absurd (omega arith)
all_below_sound (suc count) holds k table low = ground (arith, all_below_sound count holds k)
