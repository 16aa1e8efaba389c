-- ===== src/Operation/Turns/Polls.antt =====
-- pollOperation, cancelOperation and takeOperationResult of src/SSD1315.cpp: an operation that was
-- started runs until it ends with a result, and its result waits until it is taken.
use ssd.Common.{refl, ℕ, zero, suc, true, false, ◌≤◌, ◌≡◌, ◌⊎◌, inl, arith}
use ssd.Status.{Status, Err, error, success}
use ssd.Driver.{Driver, OperationState, operation_active}
use ssd.Power.{tick_power_on}
use ssd.Flush.Poll.{Step, stop, next, then_run}
use ssd.Operation.Phases.{operation_round}
use ssd.Operation.Poll.{operation_loop, poll_delay, with_timeout, poll_transactions, poll_operation}
use ssd.Operation.Result.{cancel_operation}
use ssd.Traffic.Quiet.{tick_power_on-Still}
use ssd.Operation.Turns.Keeps.{Running, Ended, finish_operation-Ended, terminate_operation-Ended}
use ssd.Operation.Turns.Rounds.{Turned, RoundOpen, Rolling, operation_round-RoundOpen}

then_run-Turned :
    (r : Step) (rest : Driver → ℕ → Status × Driver)
    → RoundOpen r
    → ((e : Driver) (left : ℕ) → Rolling e → let (st, f) = rest e left in Turned st f)
    → let (st, f) = then_run r rest in Turned st f
then_run-Turned (stop st e) rest o more = o
then_run-Turned (next e left) rest o more = more e left o

operation_loop-Turned :
    (n : ℕ) (d : Driver) (now left budget : ℕ)
    → Rolling d
    → let (st, e) = operation_loop n d now left budget in Turned st e
unfolding operation_loop
operation_loop-Turned zero d now left budget r =
    let h = r.running.waiting in inl (r.running, rw h refl)
operation_loop-Turned (suc n) d now left budget r =
    let o = operation_round d.operation.progress.phase d now left budget in
    let k =
      then_run-Turned o (λ e left'. operation_loop n e now left' budget)
        (operation_round-RoundOpen d.operation.progress.phase d now left budget r.no_delay
          r.running.unfinished r)
        (λ e left' q. operation_loop-Turned n e now left' budget q) in
    ground (arith, k)

poll_delay-Turned :
    (d : Driver) (now : ℕ) → Running d → let (st, e) = poll_delay d now in Turned st e
unfolding poll_delay
poll_delay-Turned d now r = grind (arith, finish_operation-Ended)

with_timeout-Rolling : (d : Driver) (now : ℕ) → Rolling d → Rolling (with_timeout d now)
unfolding with_timeout
with_timeout-Rolling d now r = record {
  running = record {
    active = r.running.active;
    unread = r.running.unread;
    waiting = r.running.waiting;
    unfinished = r.running.unfinished;
  };
  no_delay = r.no_delay;
}

poll_transactions-Turned :
    (d : Driver) (now n budget : ℕ)
    → Rolling d
    → let (st, e) = poll_transactions d now n budget in Turned st e
unfolding poll_transactions
poll_transactions-Turned d now n budget r =
    grind (arith, terminate_operation-Ended, operation_loop-Turned, with_timeout-Rolling)

-- A poll of a running operation leaves it running and returns `in_progress`, or leaves it ended
-- with its result waiting. A number of transactions above eight is refused, with nothing changed.
pub poll_operation-Open :
    (d : Driver) (now n budget : ℕ)
    → Running d
    → let (st, e) = poll_operation d now n budget in
      Turned st e ⊎ (9 ≤ n) × (st ≡ error Err.invalid_config) × (e ≡ d)
unfolding poll_operation
poll_operation-Open d now n budget r =
    let e = tick_power_on d now in
    grind (
      arith,
      tick_power_on-Still d now,
      poll_delay-Turned e now,
      poll_transactions-Turned e now n budget,
    )

-- Cancelling succeeds exactly on an active operation, and leaves the result
-- `cancelled` waiting; without one it changes nothing.
pub cancel_operation-Ended :
    (d : Driver)
    → let (st, e) = cancel_operation d in
      (operation_active d ≡ true)
        × (st ≡ success)
        × Ended e
        × (e.operation.progress.state ≡ OperationState.cancelled)
        × (e.operation.progress.status ≡ error Err.cancelled)
      ⊎ (operation_active d ≡ false) × (st ≡ error Err.state_error) × (e ≡ d)
unfolding cancel_operation
cancel_operation-Ended d =
    ground (arith, terminate_operation-Ended d (error Err.cancelled) OperationState.cancelled)
