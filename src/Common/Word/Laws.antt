-- ===== src/Common/Word/Laws.antt =====
-- The saturating helpers at the top of src/SSD1315.cpp against plain arithmetic.
use Prim.Native.Nat.{ℕ, ◌+◌, ◌≤◌, min}
use mathlib.Core.Path.{◌≡◌}
use native.Mathlib.Omega.{arith}
use ssd.Common.Word.{uint32_max, saturated_add}

-- On 32-bit values the sum is the true sum, cut off at the largest value.
pub saturated_add-min :
    (a b : ℕ) → a ≤ uint32_max → b ≤ uint32_max → saturated_add a b ≡ min (a + b) uint32_max
unfolding saturated_add
saturated_add-min a b ha hb = ground arith
