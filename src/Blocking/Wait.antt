-- ===== src/Blocking/Wait.antt =====
-- waitFlush of src/SSD1315.cpp: ticks until no flush runs and no display-on delay is pending, the
-- time is over, or the clock stands still while nothing moves.
pub mod Done
pub mod Grows
pub mod Clock
pub mod Ends
pub mod Returns
use ssd.Common.{
  ℕ, zero, suc, Bool, true, false, Option, none, some, ◌+◌, ◌-◌, ltb, leb, ◌==◌, not, ◌&&◌, ◌||◌,
  u32, sub32, if◌then◌else◌,
}
use ssd.Status.{Status, Err, success, error}
use ssd.Driver.{Driver, FlushJob, PowerState, operation_active, is_flushing}
use ssd.Health.{now_ms, page_iteration_owns_flush_result, page_iteration_flush_result}
use ssd.Power.{is_init_delay}
use ssd.Flush.Terminal.{fail_flush, consume_terminal_flush}
use ssd.Lifecycle.{tick}
use ssd.Blocking.Guard.{wait_flush_stall_guard_iterations}
use ssd.Blocking.Run.{Turn, leave, again, then_turn}

-- Nothing is left to wait for.
abbrev pub is_settled : Driver → Bool
is_settled d = not (is_flushing d) && not (is_init_delay d.panel.power_state)

-- The end of a wait: the flush result goes to the caller, or stays with page iteration.
unfoldable pub finish_wait : Driver → Status × Driver
finish_wait d =
    if page_iteration_owns_flush_result d
    then (page_iteration_flush_result d, d)
    else consume_terminal_flush d

-- A wait without success ends a running flush as timed out.
unfoldable pub give_up : Driver → Status × Driver
give_up d =
    if is_flushing d
    then (let e = fail_flush d (error Err.timeout) in
        if page_iteration_owns_flush_result e
        then (error Err.timeout, e)
        else consume_terminal_flush e)
    else (error Err.timeout, d)

abbrev leave_with : Status × Driver → Turn
leave_with (st, d) = leave st d

-- The clock hook, or the start of the wait without one.
unfoldable pub sample : Driver → ℕ → ℕ × Driver
sample d start = elim d.config.now_ms [ none ↦ (start, d) | some f ↦ now_ms d ]

-- A tick whose transfers time out within the time that remains.
unfoldable pub bounded_tick : Driver → ℕ → ℕ → Driver
bounded_tick d now remaining =
    let saved = d.binding.transport_timeout_ms in
    let e =
      tick
        (record d {
          binding = record (d.binding) {
            transport_timeout_ms = if ltb remaining saved then remaining else saved;
          };
        })
        now in
    record e { binding = record (e.binding) { transport_timeout_ms = saved } }

abbrev pub power_value : PowerState → ℕ
power_value PowerState.off = 0
power_value PowerState.init_delay = 1
power_value PowerState.ready = 2

-- `progressed`
unfoldable pub flush_progressed : Driver → Driver → Bool
flush_progressed before after =
    not (after.flush.transaction_count == before.flush.transaction_count)
    || not (after.flush.bytes_completed == before.flush.bytes_completed)
    || not (power_value after.panel.power_state == power_value before.panel.power_state)

-- After the tick of an iteration: the driver before it and after it, the clock value, the one
-- observed before, the stalled iterations and their bound.
unfoldable pub judge_wait : Driver → Driver → ℕ → ℕ → ℕ → ℕ → Turn
judge_wait before d current last stalled max_stalled =
    if is_settled d
    then leave_with (finish_wait d)
    else if current == last && not (flush_progressed before d)
    then if leb max_stalled (u32 (stalled + 1))
      then leave_with (give_up d)
      else again success d last (u32 (stalled + 1))
    else again success d current 0

unfoldable pub wait_turn : ℕ → ℕ → ℕ → Driver → ℕ → ℕ → Turn
wait_turn max_stalled start timeout_ms d last stalled =
    if is_settled d
    then leave_with (finish_wait d)
    else let (current, e) = sample d start in
      let elapsed = sub32 current start in
      if leb timeout_ms elapsed
      then leave_with (give_up e)
      else judge_wait e (bounded_tick e current (timeout_ms - elapsed)) current last stalled
          max_stalled

-- The loop. Its status argument is not read.
unfoldable pub wait_loop : ℕ → ℕ → ℕ → ℕ → Status → Driver → ℕ → ℕ → Option (Status × Driver)
wait_loop max_stalled start timeout_ms zero st d last stalled = none
wait_loop max_stalled start timeout_ms (suc fuel) st d last stalled =
    then_turn (wait_turn max_stalled start timeout_ms d last stalled)
      (wait_loop max_stalled start timeout_ms fuel)

-- The time to wait: the argument, else the configured timeout, else five seconds.
unfoldable pub wait_timeout : Driver → ℕ → ℕ
wait_timeout d timeout_ms =
    let chosen = if timeout_ms == 0 then d.config.flush_timeout_ms else timeout_ms in
    if chosen == 0 then 5000 else chosen

unfoldable pub wait_flush : ℕ → Driver → ℕ → ℕ → Option (Status × Driver)
wait_flush fuel d now timeout_ms =
    if operation_active d || d.operation.result_ready
    then some (error Err.busy, d)
    else if not d.binding.initialized
    then some (error Err.not_initialized, d)
    else let t = wait_timeout d timeout_ms in
      wait_loop (wait_flush_stall_guard_iterations t d.config.i2c_timeout_ms) now t fuel success d
        now 0
