-- ===== src/Blocking/Wait/Returns.antt =====
-- waitFlush of src/SSD1315.cpp comes back, and leaves no flush running unless it was refused.
use ssd.Common.{ℕ, true, ◌≤◌, ◌<◌, ◌≡◌, ◌||◌, inl, inr, refl, arith, Bool-cases, not}
use ssd.Status.{success}
use ssd.Driver.{Driver, operation_active}
use ssd.Blocking.Guard.{wait_flush_stall_guard_iterations, wait_flush_stall_guard_iterations-clamp}
use ssd.Blocking.Run.Delay.{has_ended, enough}
use ssd.Blocking.Calls.Returns.{Returns, ended-Returns}
use ssd.Blocking.Wait.{wait_timeout, wait_flush}
use ssd.Blocking.Wait.Grows.{InRange}
use ssd.Blocking.Wait.Ends.{Awaits, to_go, wait_loop_ended}
use ssd.Blocking.Wait.Clock.{Rising}
use ssd.Blocking.Wait.Done.{WaitedFor, wait_flush-WaitedFor}

-- The rounds that are enough: the stall guard for each millisecond, transaction and byte that may
-- still be counted.
unfoldable pub wait_fuel : Driver → ℕ → ℕ → ℕ
wait_fuel d now timeout_ms =
    let t = wait_timeout d timeout_ms in
    enough (to_go now t d now) 0 (wait_flush_stall_guard_iterations t d.config.i2c_timeout_ms)

wait_flush_ended :
    (fuel : ℕ) (d : Driver) (now timeout_ms : ℕ)
    → Rising d.config now
    → InRange d
    → wait_timeout d timeout_ms < 4294967296
    → d.config.i2c_timeout_ms < 4294967296
    → wait_fuel d now timeout_ms ≤ fuel
    → has_ended (wait_flush fuel d now timeout_ms) ≡ true
unfolding wait_flush wait_fuel
wait_flush_ended fuel d now timeout_ms r k wt wi h =
    let t = wait_timeout d timeout_ms in
    let m = wait_flush_stall_guard_iterations t d.config.i2c_timeout_ms in
    let c = wait_flush_stall_guard_iterations-clamp t d.config.i2c_timeout_ms wt wi in
    elim (Bool-cases (operation_active d || d.operation.result_ready)) [
      | inl busy ↦ rw busy refl
      | inr free ↦ rw free (elim (Bool-cases (not d.binding.initialized)) [
        | inl raw ↦ rw raw refl
        | inr set_up ↦
            let a : Awaits now d now = record {
              inactive = ground (arith, free);
              read = ground (arith, free);
              range = k;
              rising = r;
              seen = omega arith;
              recent = r.later d.bus.clock_reads;
            } in
            let e =
              wait_loop_ended m now t fuel success d now 0 a (omega (arith, c)) (omega (arith, c))
                h in
            rw set_up e
      ])
    ]

-- With its timeouts and its counters in the ranges of their types, waitFlush comes back on every clock of 32 bits that does not go back or wrap during the wait, also
-- on one that stands still, whatever the transport answers: the stall guard for each millisecond of
-- the timeout and for each transaction and byte that the counters have room for is enough. It was
-- refused with `busy` or `not_initialized` and changed nothing, or no flush runs.
pub wait_flush-Returns :
    (fuel : ℕ) (d : Driver) (now timeout_ms : ℕ)
    → Rising d.config now
    → InRange d
    → wait_timeout d timeout_ms < 4294967296
    → d.config.i2c_timeout_ms < 4294967296
    → wait_fuel d now timeout_ms ≤ fuel
    → Returns (WaitedFor d) (wait_flush fuel d now timeout_ms)
wait_flush-Returns fuel d now timeout_ms r k wt wi h =
    ended-Returns (WaitedFor d) (wait_flush fuel d now timeout_ms)
      (wait_flush_ended fuel d now timeout_ms r k wt wi h)
      (wait_flush-WaitedFor fuel d now timeout_ms)
