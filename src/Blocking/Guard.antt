-- ===== src/Blocking/Guard.antt =====
-- waitFlushStallGuardIterations of src/SSD1315.cpp: how often a clock that stands still is read
-- before a blocking call gives up.
use Prim.Native.Nat.{max}
use ssd.Common.{ℕ, ◌+◌, ◌*◌, ◌<◌, ◌≡◌, arith, min, ltb, saturated_add, saturated_mul, if◌then◌else◌}

abbrev max_stalled_iterations : ℕ
max_stalled_iterations = 8192

unfoldable pub wait_flush_stall_guard_iterations : ℕ → ℕ → ℕ
wait_flush_stall_guard_iterations timeout_ms i2c_timeout_ms =
    let budget = saturated_add (saturated_mul (saturated_add timeout_ms i2c_timeout_ms) 4) 16 in
    if ltb budget 32
    then 32
    else if ltb max_stalled_iterations budget
    then max_stalled_iterations
    else budget

-- The guard is four reads for each millisecond of the two timeouts, and sixteen more, clamped to
-- 32..8192: no sum or product of timeouts of 32 bits overflows.
pub wait_flush_stall_guard_iterations-clamp :
    (timeout_ms i2c_timeout_ms : ℕ)
    → timeout_ms < 4294967296
    → i2c_timeout_ms < 4294967296
    → wait_flush_stall_guard_iterations timeout_ms i2c_timeout_ms
      ≡ min 8192 (max 32 (4 * (timeout_ms + i2c_timeout_ms) + 16))
unfolding wait_flush_stall_guard_iterations saturated_add saturated_mul
wait_flush_stall_guard_iterations-clamp timeout_ms i2c_timeout_ms h k = ground arith
