-- ===== src/Operation/Poll/Deadline.antt =====
-- The deadline of an operation of src/SSD1315.cpp, on a 32-bit clock that wraps around.
use ssd.Common.{◌⊎◌, sub32, false, ℕ, true, false, ◌+◌, ◌≤◌, ◌<◌, ◌≡◌, arith, u32, ltb, length}
use ssd.Status.{Err, error}
use ssd.Driver.{Driver, OperationPhase, OperationState, is_phase, operation_active}
use ssd.Power.{tick_power_on}
use ssd.Operation.Poll.{deadline_reached, with_timeout, poll_transactions, poll_operation}
use ssd.Operation.Turns.Keeps.{Ended, terminate_operation-Ended}
use ssd.Traffic.Calm.{terminate_operation-Sends}
use ssd.Traffic.Quiet.{tick_power_on-Still}
use ssd.Traffic.Operation.{operation_loop-Within}

-- At `k` milliseconds past a deadline, across the wrap of the clock, it is seen as reached exactly
-- while `k` is below 2 ^ 31.
pub deadline_reached_iff :
    (deadline k : ℕ)
    → deadline < 4294967296
    → k < 4294967296
    → deadline_reached (u32 (deadline + k)) deadline ≡ ltb k 2147483648
unfolding deadline_reached
deadline_reached_iff deadline k hd hk = ground arith

-- An operation with a deadline, outside the display-on delay.
pub record Bounded (d : Driver) : Type 0 where
  pub active : operation_active d ≡ true
  pub no_delay : is_phase d.operation.progress.phase OperationPhase.display_on_delay ≡ false
  pub deadline : d.operation.options.use_deadline ≡ true

expired_poll :
    (d : Driver) (now n budget : ℕ)
    → Bounded d
    → n ≤ 8
    → deadline_reached now d.operation.options.deadline_ms ≡ true
    → let (st, e) = poll_operation d now n budget in
      (st ≡ error Err.timeout)
      × (length e.bus.sent ≤ length d.bus.sent)
      × Ended e
      × (e.operation.progress.state ≡ OperationState.timed_out)
      × (e.operation.progress.status ≡ error Err.timeout)
unfolding poll_operation poll_transactions
expired_poll d now n budget b h r =
    let e = tick_power_on d now in
    ground (
      arith,
      tick_power_on-Still d now,
      terminate_operation-Ended e (error Err.timeout) OperationState.timed_out,
      terminate_operation-Sends e (error Err.timeout) OperationState.timed_out,
    )

-- A poll, with at most eight transactions, of an active operation outside the display-on delay, at
-- or after its deadline by less than 2 ^ 31 milliseconds on a clock of 32 bits, also across the
-- wrap of the clock, sends nothing: the operation ends as timed out, with its result waiting.
pub poll_operation-expired :
    (d : Driver) (late n budget : ℕ)
    → Bounded d
    → n ≤ 8
    → d.operation.options.deadline_ms < 4294967296
    → late < 2147483648
    → let (st, e) = poll_operation d (u32 (d.operation.options.deadline_ms + late)) n budget in
      (st ≡ error Err.timeout)
      × (length e.bus.sent ≤ length d.bus.sent)
      × Ended e
      × (e.operation.progress.state ≡ OperationState.timed_out)
      × (e.operation.progress.status ≡ error Err.timeout)
poll_operation-expired d late n budget b h wide k =
    let t = d.operation.options.deadline_ms in
    let r = deadline_reached_iff t late wide (omega (arith, k)) in
    expired_poll d (u32 (t + late)) n budget b h (ground (arith, r, k))

-- A poll of an active operation with a deadline, outside the display-on delay, hands at most one
-- frame to the write callback, whatever it may use, while the transaction counter of the flush job has room for it.
pub poll_operation-deadline :
    (d : Driver) (now n budget : ℕ)
    → Bounded d
    → d.flush.transaction_count + 1 ≤ 65535
    → length (poll_operation d now n budget).1.bus.sent ≤ length d.bus.sent + 1
unfolding poll_operation poll_transactions with_timeout
poll_operation-deadline d now n budget b h =
    let e = tick_power_on d now in
    grind (arith, tick_power_on-Still d now, terminate_operation-Sends, operation_loop-Within)

-- The transport timeout of a poll is at most the configured one, and on an operation with a
-- deadline at most the time that is left.
pub with_timeout_lem :
    (d : Driver) (now : ℕ)
    → let t = (with_timeout d now).binding.transport_timeout_ms in
      (t ≤ d.config.i2c_timeout_ms)
      × ((d.operation.options.use_deadline ≡ false)
          ⊎ (t ≤ sub32 d.operation.options.deadline_ms now))
unfolding with_timeout
with_timeout_lem d now = ground arith
