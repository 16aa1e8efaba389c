-- ===== src/Traffic/Operation.antt =====
-- A poll of an operation of src/SSD1315.cpp is bounded by the transactions that it is given.
use ssd.Common.{ℕ, zero, suc, ◌+◌, ◌≤◌, ◌≡◌, ◌⊎◌, arith, length}
use ssd.Status.{Status, Err, error}
use ssd.Driver.{Driver}
use ssd.Power.{tick_power_on}
use ssd.Flush.Poll.{Step, stop, next, then_run}
use ssd.Operation.Phases.{operation_round}
use ssd.Operation.Poll.{operation_loop, poll_delay, with_timeout, poll_transactions, poll_operation}
use ssd.Traffic.Quiet.{tick_power_on-Still}
use ssd.Traffic.Calm.{finish_operation-Sends, terminate_operation-Sends}
use ssd.Traffic.Rounds.{RoundSends, operation_round-RoundSends}

-- At most `left` frames more.
abbrev Within : ℕ → Driver → Driver → Type 0
Within left d e = length e.bus.sent ≤ length d.bus.sent + left

then_run-Within :
    (r : Step) (d : Driver) (left : ℕ) (rest : Driver → ℕ → Status × Driver)
    → d.flush.transaction_count + left ≤ 65535
    → RoundSends left d r
    → ((e : Driver) (left' : ℕ)
        → e.flush.transaction_count + left' ≤ 65535
        → Within left' e (rest e left').1)
    → Within left d (then_run r rest).1
then_run-Within (stop st e) d left rest h s more = s
then_run-Within (next e left') d left rest h s more = omega (arith, more e left' (omega arith))

pub operation_loop-Within :
    (n : ℕ) (d : Driver) (now left budget : ℕ)
    → d.flush.transaction_count + left ≤ 65535
    → Within left d (operation_loop n d now left budget).1
unfolding operation_loop
operation_loop-Within zero d now left budget h = omega arith
operation_loop-Within (suc n) d now left budget h =
    let r = operation_round d.operation.progress.phase d now left budget in
    ground (
      arith,
      then_run-Within r d left (λ e left'. operation_loop n e now left' budget) h
          (operation_round-RoundSends d.operation.progress.phase d now left budget h)
          (λ e left' k. operation_loop-Within n e now left' budget k),
    )

pub poll_delay-Within : (d : Driver) (now : ℕ) → Within 0 d (poll_delay d now).1
unfolding poll_delay
poll_delay-Within d now = grind (arith, finish_operation-Sends)

poll_transactions-Within :
    (d : Driver) (now n budget : ℕ)
    → d.flush.transaction_count + n ≤ 65535
    → Within n d (poll_transactions d now n budget).1
unfolding poll_transactions with_timeout
poll_transactions-Within d now n budget h =
    grind (arith, terminate_operation-Sends, operation_loop-Within)

-- A poll that may use `n` transactions hands at most `n` frames to the write callback, while the
-- transaction counter of the flush job has room for them. More than eight are refused, with
-- nothing changed.
pub poll_operation_bounds :
    (d : Driver) (now n budget : ℕ)
    → d.flush.transaction_count + n ≤ 65535
    → let (st, e) = poll_operation d now n budget in
      (length e.bus.sent ≤ length d.bus.sent + n)
      × (length e.bus.sent ≤ length d.bus.sent + 8)
      × ((n ≤ 8) ⊎ (e ≡ d) × (st ≡ error Err.invalid_config))
unfolding poll_operation
poll_operation_bounds d now n budget h =
    let e = tick_power_on d now in
    ground (
      arith,
      tick_power_on-Still d now,
      poll_delay-Within e now,
      poll_transactions-Within e now n budget,
    )
