-- ===== src/Blocking/Run.antt =====
-- _nextCompatibilityOptions and _runBlockingAdmittedOperation of src/SSD1315.cpp: an admitted
-- operation is polled until it has ended, and its result is taken. The yield hook is called with
-- the same `user` pointer as the clock and returns nothing: it has no effect on the driver.
pub mod Ids
pub mod Free
pub mod Delay
pub mod Steps
pub mod Ends
use ssd.Common.{
  ℕ, zero, suc, Bool, true, false, Option, none, some, ◌+◌, leb, ◌==◌, not, ◌&&◌, ◌||◌, u16, u32,
  saturated_add, if◌then◌else◌,
}
use ssd.Status.{Status, Err, success, error, is_ok, is_in_progress}
use ssd.Driver.{
  Driver, OperationState, OperationOptions, OperationProgress, is_phase, operation_active,
  no_options,
}
use ssd.Health.{now_ms}
use ssd.Operation.Finish.{terminate_operation}
use ssd.Operation.Poll.{max_poll_transactions, poll_operation}
use ssd.Operation.Result.{take_operation_result}
use ssd.Blocking.Guard.{wait_flush_stall_guard_iterations}

-- One increment, and one more where it meets 0 or the last admitted identifier.
unfoldable pub next_compatibility_id : ℕ → ℕ → ℕ
next_compatibility_id compat last =
    let next = u32 (compat + 1) in if next == 0 || next == last then u32 (next + 1) else next

unfoldable pub next_compatibility_options : Driver → OperationOptions × Driver
next_compatibility_options d =
    let id = next_compatibility_id d.operation.compat_request_id d.operation.last_request_id in
    (
      record no_options { request_id = id },
      record d { operation = record (d.operation) { compat_request_id = id } },
    )

-- How an iteration of a blocking loop leaves it, with a status, or goes on, with the latest status,
-- the clock value observed last, and the number of iterations for which the clock has stood still.
pub data Turn : Type 0 where
  leave : Status → Driver → Turn
  again : Status → Driver → ℕ → ℕ → Turn

abbrev pub then_turn :
    Turn → (Status → Driver → ℕ → ℕ → Option (Status × Driver)) → Option (Status × Driver)
then_turn (leave st e) rest = some (st, e)
then_turn (again st e last stalled) rest = rest st e last stalled

-- `operationProgressed`
unfoldable pub operation_progressed : OperationProgress → OperationProgress → Bool
operation_progressed before after =
    not (is_phase after.phase before.phase)
    || not (after.transaction_count == before.transaction_count)
    || not (after.bytes_completed == before.bytes_completed)
    || not (after.current_page == before.current_page)
    || not (after.current_column == before.current_column)

-- The end of an iteration: the clock is read, and a clock that stands still while nothing moves is
-- counted against the guard.
unfoldable pub judge_turn : OperationProgress → Status → Driver → ℕ → ℕ → ℕ → Turn
judge_turn before st d last stalled max_stalled =
    let (next, e) = now_ms d in
    if next == last && not (operation_progressed before e.operation.progress)
    then if leb max_stalled (u32 (stalled + 1))
      then leave (error Err.timeout)
          (terminate_operation e (error Err.timeout) OperationState.timed_out)
      else again st e last (u32 (stalled + 1))
    else again st e next 0

unfoldable pub blocking_turn : Driver → ℕ → ℕ → ℕ → Turn
blocking_turn d last stalled max_stalled =
    let (st, e) = poll_operation d last max_poll_transactions (u16 d.config.byte_budget_per_tick) in
    if not (is_ok st) && not (is_in_progress st)
    then leave st e
    else if not (operation_active e)
    then leave st e
    else judge_turn d.operation.progress st e last stalled max_stalled

-- The loop: fuel, the latest status, the driver, the clock value and the stalled iterations.
unfoldable pub blocking_loop : ℕ → ℕ → Status → Driver → ℕ → ℕ → Option (Status × Driver)
blocking_loop max_stalled zero st d last stalled = none
blocking_loop max_stalled (suc fuel) st d last stalled = elim (operation_active d) [
  | false ↦ some (st, d)
  | true ↦ then_turn (blocking_turn d last stalled max_stalled) (blocking_loop max_stalled fuel)
]

unfoldable pub max_stalled_of : Driver → ℕ
max_stalled_of d =
    wait_flush_stall_guard_iterations
      (saturated_add d.config.display_on_delay_ms d.config.flush_timeout_ms) d.config.i2c_timeout_ms

-- A result is handed out exactly when the call succeeds.
unfoldable pub take_blocking_result : Status × Driver → Status × Driver
take_blocking_result (st, d) =
    let (taken, out, e) = take_operation_result d in
    elim out [
      | none ↦ (if is_ok st then error Err.internal_error else st, e)
      | some p ↦ (p.status, e)
    ]

-- A loop that has ended, and what follows it.
abbrev pub once_over :
    Option (Status × Driver) → (Status × Driver → Status × Driver) → Option (Status × Driver)
once_over none f = none
once_over (some r) f = some (f r)

unfoldable pub run_blocking_admitted_operation : ℕ → Driver → Option (Status × Driver)
run_blocking_admitted_operation fuel d =
    let (last, e) = now_ms d in
    once_over (blocking_loop (max_stalled_of e) fuel (error Err.in_progress) e last 0)
      take_blocking_result
