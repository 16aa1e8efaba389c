-- ===== src/Examples/Blocking.antt =====
-- The theorems on blocking calls, on a panel of 8 columns and 16 rows.
use ssd.Common.{ℕ, true, false, some, ◌+◌, ◌*◌, ◌≤◌, ◌≡◌, ◌↔◌, ◌⊎◌, refl, arith, min, u32, sub32}
use Prim.Native.Nat.{max}
use ssd.Status.{Err, error}
use ssd.Config.{Config}
use ssd.Driver.{Driver, OperationKind, OperationPhase, OperationState, no_progress, reset_operation}
use ssd.Blocking.Guard.{wait_flush_stall_guard_iterations, wait_flush_stall_guard_iterations-clamp}
use ssd.Blocking.Run.{next_compatibility_id, blocking_loop}
use ssd.Blocking.Run.Ids.{is_refused, next_compatibility_id-refused_iff}
use ssd.Blocking.Run.Free.{Free}
use ssd.Blocking.Run.Delay.{
  sample, Steady, InDelay, remaining, enough, has_ended, blocking_loop_ended,
}
use ssd.Blocking.Calls.{will_resync, begin, start_horizontal_scroll}
use ssd.Blocking.Calls.Free.{BeganWell}
use ssd.Blocking.Calls.Returns.{Returns, start_horizontal_scroll-Free, begin-BeganWell}
use ssd.Blocking.Calls.Ends.{start_horizontal_scroll_ends}
use ssd.Blocking.Wait.{wait_timeout, wait_flush}
use ssd.Blocking.Wait.Grows.{InRange}
use ssd.Blocking.Wait.Ends.{to_go}
use ssd.Blocking.Wait.Clock.{Rising, shows}
use ssd.Blocking.Wait.Done.{WaitedFor}
use ssd.Blocking.Wait.Returns.{wait_fuel, wait_flush-Returns}
use ssd.Common.{saturated_add, saturated_mul, ◌<◌}
use ssd.Examples.{plain_flush, small_config, lit, scrollable}

plain_config : Config
plain_config = record small_config { clear_on_begin = false }

plain_config-will_resync : will_resync plain_config ≡ false
unfolding plain_config will_resync
plain_config-will_resync = refl

scrollable-Free : Free scrollable
scrollable-Free = record { inactive = refl; read = refl }

start_horizontal_scroll-Free_example :
    Returns (λ st e. Free e) (start_horizontal_scroll 17 scrollable true 0 1 7)
start_horizontal_scroll-Free_example =
    start_horizontal_scroll-Free 17 scrollable true 0 1 7 scrollable-Free (omega arith)

begin-BeganWell_example :
    Returns (BeganWell lit plain_config) (begin (λ size. some 4096) 17 lit plain_config)
begin-BeganWell_example =
    begin-BeganWell (λ size. some 4096) 17 lit plain_config plain_config-will_resync (omega arith)

start_horizontal_scroll_ends_example :
    has_ended (start_horizontal_scroll 17 scrollable true 0 1 7) ≡ true
start_horizontal_scroll_ends_example =
    start_horizontal_scroll_ends 17 scrollable true 0 1 7 (omega arith)

abbrev compat : ℕ
compat = 4294967294

abbrev last_id : ℕ
last_id = 4294967295

abbrev first_id : ℕ
first_id = 1

next_compatibility_id-refused_iff_example :
    (is_refused (next_compatibility_id compat last_id) last_id ≡ true) ↔ (
      (compat ≡ 4294967294) × (last_id ≡ 4294967295) ⊎ (compat ≡ 4294967295) × (last_id ≡ first_id))
next_compatibility_id-refused_iff_example =
    next_compatibility_id-refused_iff compat last_id (omega arith) (omega arith)

wait_flush_stall_guard_iterations-clamp_example :
    wait_flush_stall_guard_iterations 5000 25 ≡ min 8192 (max 32 (4 * (5000 + 25) + 16))
wait_flush_stall_guard_iterations-clamp_example =
    wait_flush_stall_guard_iterations-clamp 5000 25 (omega arith) (omega arith)

-- A clock that moves by a millisecond at each read, and wraps.
ticking : Config
ticking = record small_config { now_ms = some (λ reads. u32 reads) }

ticking-Steady : Steady ticking
unfolding ticking sample
ticking-Steady = record { wide = λ k. ground arith; near = λ k. ground arith }

abbrev delayed : Driver
delayed = record lit {
  config = ticking;
  operation = record reset_operation {
    progress = record no_progress {
      request_id = 7;
      kind = OperationKind.wake;
      phase = OperationPhase.display_on_delay;
      state = OperationState.active;
      status = error Err.in_progress;
    };
    last_request_id = 7;
  };
}

delayed-InDelay : InDelay delayed 0
unfolding ticking
delayed-InDelay = record {
  running = record { active = refl; unread = refl; waiting = refl; unfinished = refl };
  waits = refl;
  guarded = omega arith;
  wide = (omega arith, omega arith);
}

short_enough : delayed.config.display_on_delay_ms ≤ 2147483648
unfolding ticking
short_enough = omega arith

near_start : sub32 (sample delayed.config delayed.bus.clock_reads) 0 ≤ 2147483648
unfolding ticking sample
near_start = omega arith

enough_here : enough (remaining delayed 0) 0 32 ≤ 3264
unfolding enough remaining ticking
enough_here = omega arith

blocking_loop_ended_example :
    has_ended (blocking_loop 32 3264 (error Err.in_progress) delayed 0 0) ≡ true
blocking_loop_ended_example =
    blocking_loop_ended 32 3264 (error Err.in_progress) delayed 0 0 delayed-InDelay short_enough
      ticking-Steady near_start (omega arith) (omega arith) enough_here

-- The flush on a panel with a clock that starts at 0 and ticks for five seconds.
abbrev waiting : Driver
waiting = record plain_flush {
  config = record small_config { now_ms = some (λ reads. min reads 5000) };
}

waiting-Rising : Rising waiting.config 0
unfolding shows
waiting-Rising = record {
  wide = λ k. omega arith;
  later = λ k. omega arith;
  rises = λ k. omega arith;
}

waiting-InRange : InRange waiting
waiting-InRange = record { count = omega arith; bytes = omega arith }

waiting_fuel : wait_fuel waiting 0 50 ≤ 35184372097024
unfolding wait_fuel wait_timeout enough to_go wait_flush_stall_guard_iterations saturated_add
    saturated_mul
waiting_fuel = omega arith

waiting_time : wait_timeout waiting 50 < 4294967296
unfolding wait_timeout
waiting_time = omega arith

wait_flush-Returns_example : Returns (WaitedFor waiting) (wait_flush 35184372097024 waiting 0 50)
wait_flush-Returns_example =
    wait_flush-Returns 35184372097024 waiting 0 50 waiting-Rising waiting-InRange waiting_time
      (omega arith) waiting_fuel
