-- ===== src/Common/Loops.antt =====
-- Counted loops.
use Prim.Native.Nat.{ℕ, zero, suc, ◌+◌, ◌<◌}
use mathlib.Core.Path.{◌≡◌}
use native.Mathlib.Omega.{arith}

-- for (k = first; k < first + rounds; k++) state = step k state
unfoldable pub for_range {ℓ} : {State : Type ℓ} → ℕ → ℕ → (ℕ → State → State) → State → State
for_range zero first step state = state
for_range (suc rounds) first step state =
    let state' = step first state in for_range rounds (first + 1) step state'

-- What every step before `end` hands on, the loop up to `end` hands on.
pub for_range_inv {ℓ κ} :
    {State : Type ℓ} (Holds : ℕ → State → Type κ) (step : ℕ → State → State) (end : ℕ)
    → ((k : ℕ) (state : State) → k < end → Holds k state → Holds (k + 1) (step k state))
    → (rounds first : ℕ) (state : State) → first + rounds ≡ end
    → Holds first state
    → Holds end (for_range rounds first step state)
unfolding for_range
for_range_inv Holds step end each zero first state meets now =
    let met : first ≡ end = omega arith in rw (← met) now
for_range_inv Holds step end each (suc rounds) first state meets now =
    let later = each first state (omega arith) now in
    for_range_inv Holds step end each rounds (first + 1) (step first state) (omega arith) later
