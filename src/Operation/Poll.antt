-- ===== src/Operation/Poll.antt =====
-- pollOperation of src/SSD1315.cpp. A round either uses a transaction or leads to DISPLAY_ON,
-- which ends the poll, so two rounds more than transactions are enough: Operation/Poll/Fuel.
pub mod Deadline
pub mod Fuel
use ssd.Common.{
  ℕ, zero, suc, Bool, true, false, ◌+◌, ltb, leb, ◌==◌, not, ◌&&◌, sub32, if◌then◌else◌,
}
use ssd.Status.{Status, Err, success, error}
use ssd.Driver.{
  Driver, OperationPhase, OperationState, OperationOptions, is_phase, operation_active,
}
use ssd.Power.{tick_power_on}
use ssd.Flush.Poll.{then_run}
use ssd.Operation.Finish.{finish_operation, terminate_operation}
use ssd.Operation.Phases.{operation_round, powered}

abbrev pub max_poll_transactions : ℕ
max_poll_transactions = 8

-- `static_cast<int32_t>(nowMs - deadlineMs) >= 0`
unfoldable pub deadline_reached : ℕ → ℕ → Bool
deadline_reached now deadline = ltb (sub32 now deadline) 2147483648

-- The loop, on the rounds left.
unfoldable pub operation_loop : ℕ → Driver → ℕ → ℕ → ℕ → Status × Driver
operation_loop zero d now left budget = (d.operation.progress.status, d)
operation_loop (suc n) d now left budget = elim (operation_active d) [
  | false ↦ (d.operation.progress.status, d)
  | true ↦
      then_run (operation_round d.operation.progress.phase d now left budget)
        λ e left'. operation_loop n e now left' budget
]

-- Phase DISPLAY_ON_DELAY: no transaction, only the clock.
unfoldable pub poll_delay : Driver → ℕ → Status × Driver
poll_delay d now =
    if not d.operation.delay_started
    then (
      error Err.in_progress,
      record d { operation = record (d.operation) { delay_started = true; delay_start_ms = now } },
    )
    else if leb d.config.display_on_delay_ms (sub32 now d.operation.delay_start_ms)
    then (success, finish_operation (powered d))
    else (error Err.in_progress, d)

-- The transport timeout of a poll: no longer than the deadline allows.
unfoldable pub with_timeout : Driver → ℕ → Driver
with_timeout d now = record d {
  binding = record (d.binding) {
    transport_timeout_ms =
        if o.use_deadline && ltb (sub32 o.deadline_ms now) d.config.i2c_timeout_ms
        then sub32 o.deadline_ms now
        else d.config.i2c_timeout_ms;
  };
}
  where
    o : OperationOptions
    o = d.operation.options

-- The part with transactions.
unfoldable pub poll_transactions : Driver → ℕ → ℕ → ℕ → Status × Driver
poll_transactions d now max_transactions byte_budget =
    let o = d.operation.options in
    let allowed = if o.use_deadline && ltb 1 max_transactions then 1 else max_transactions in
    if o.use_deadline && deadline_reached now o.deadline_ms
    then (error Err.timeout, terminate_operation d (error Err.timeout) OperationState.timed_out)
    else operation_loop (allowed + 2) (with_timeout d now) now allowed
        (if byte_budget == 0 then d.config.byte_budget_per_tick else byte_budget)

unfoldable pub poll_operation : Driver → ℕ → ℕ → ℕ → Status × Driver
poll_operation d now max_transactions byte_budget =
    if ltb max_poll_transactions max_transactions
    then (error Err.invalid_config, d)
    else let e = tick_power_on d now in
      if not (operation_active e)
      then (if e.operation.result_ready then e.operation.progress.status else success, e)
      else if is_phase e.operation.progress.phase OperationPhase.display_on_delay
      then poll_delay e now
      else poll_transactions e now max_transactions byte_budget
