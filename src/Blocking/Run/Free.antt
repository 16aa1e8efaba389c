-- ===== src/Blocking/Run/Free.antt =====
-- _runBlockingAdmittedOperation of src/SSD1315.cpp leaves neither an operation nor a result behind.
use ssd.Common.{ℕ, zero, suc, false, Option, none, some, ◌≤◌, ◌≡◌, arith, u16}
use ssd.Status.{Status, Err, error}
use ssd.Driver.{Driver, OperationProgress, operation_active}
use ssd.Health.{now_ms}
use ssd.Operation.Poll.{max_poll_transactions}
use ssd.Operation.Result.{take_operation_result}
use ssd.Operation.Turns.Keeps.{Keeps, Running, Ended, terminate_operation-Ended}
use ssd.Operation.Turns.Polls.{poll_operation-Open}
use ssd.Blocking.Run.{
  Turn, leave, again, then_turn, once_over, judge_turn, blocking_turn, blocking_loop,
  take_blocking_result, max_stalled_of, run_blocking_admitted_operation,
}

pub now_ms-Keeps : (d : Driver) → Keeps d (now_ms d).1
unfolding now_ms
now_ms-Keeps d = ground arith

-- An iteration that leaves the loop leaves an ended operation, and another one a running one.
abbrev pub TurnOpen : Turn → Type 0
TurnOpen (leave st e) = Ended e
TurnOpen (again st e last stalled) = Running e

judge_turn-TurnOpen :
    (p : OperationProgress) (st : Status) (d : Driver) (last stalled max_stalled : ℕ)
    → Running d
    → TurnOpen (judge_turn p st d last stalled max_stalled)
unfolding judge_turn
judge_turn-TurnOpen p st d last stalled max_stalled r =
    grind (arith, now_ms-Keeps d, terminate_operation-Ended)

blocking_turn-TurnOpen :
    (d : Driver) (last stalled max_stalled : ℕ)
    → Running d
    → TurnOpen (blocking_turn d last stalled max_stalled)
unfolding blocking_turn
blocking_turn-TurnOpen d last stalled max_stalled r = grind (
  arith,
  poll_operation-Open d last max_poll_transactions (u16 d.config.byte_budget_per_tick) r,
  judge_turn-TurnOpen,
)

-- What is true of the outcome of a loop that has ended.
abbrev pub Gives : (Status → Driver → Type 0) → Option (Status × Driver) → Type 0
Gives P none = 0 ≤ 0
Gives P (some (st, e)) = P st e

pub Gives-mono :
    (P Q : Status → Driver → Type 0) (r : Option (Status × Driver))
    → ((st : Status) (e : Driver) → P st e → Q st e)
    → Gives P r
    → Gives Q r
Gives-mono P Q none each g = g
Gives-mono P Q (some (st, e)) each g = each st e g

then_turn-Gives :
    (P : Status → Driver → Type 0) (t : Turn)
    (rest : Status → Driver → ℕ → ℕ → Option (Status × Driver))
    → TurnOpen t
    → ((st : Status) (e : Driver) → Ended e → P st e)
    → ((st : Status) (e : Driver) (last stalled : ℕ) → Running e → Gives P (rest st e last stalled))
    → Gives P (then_turn t rest)
then_turn-Gives P (leave st e) rest o done more = done st e o
then_turn-Gives P (again st e last stalled) rest o done more = more st e last stalled o

pub blocking_loop-Ended :
    (max_stalled fuel : ℕ) (st : Status) (d : Driver) (last stalled : ℕ)
    → Running d
    → Gives (λ st' e. Ended e) (blocking_loop max_stalled fuel st d last stalled)
unfolding blocking_loop
blocking_loop-Ended max_stalled zero st d last stalled r = omega arith
blocking_loop-Ended max_stalled (suc fuel) st d last stalled r =
    let k =
      then_turn-Gives (λ st' e. Ended e) (blocking_turn d last stalled max_stalled)
        (blocking_loop max_stalled fuel) (blocking_turn-TurnOpen d last stalled max_stalled r)
        (λ st' e o. o)
        (λ st' e last' stalled' q. blocking_loop-Ended max_stalled fuel st' e last' stalled' q) in
    rw (r.active, blocking_loop) k

-- No operation is active, and no result waits.
pub record Free (d : Driver) : Type 0 where
  pub inactive : operation_active d ≡ false
  pub read : d.operation.result_ready ≡ false

take_blocking_result-Free :
    (st : Status) (d : Driver) → Ended d → Free (take_blocking_result (st, d)).1
unfolding take_blocking_result take_operation_result
take_blocking_result-Free st d o = ground arith

once_over-Gives :
    (P Q : Status → Driver → Type 0) (r : Option (Status × Driver))
    (f : Status × Driver → Status × Driver)
    → ((st : Status) (e : Driver) → P st e → let (st', e') = f (st, e) in Q st' e')
    → Gives P r
    → Gives Q (once_over r f)
once_over-Gives P Q none f each g = g
once_over-Gives P Q (some (st, e)) f each g = each st e g

-- A blocking call that admitted an operation, once its loop has ended, has ended the operation and
-- taken its result: no operation is active, and no result waits.
pub run_blocking_admitted_operation-Free :
    (fuel : ℕ) (d : Driver)
    → Running d
    → Gives (λ st e. Free e) (run_blocking_admitted_operation fuel d)
unfolding run_blocking_admitted_operation
run_blocking_admitted_operation-Free fuel d r =
    let (last, e) = now_ms d in
    let q : Running e = ground (arith, now_ms-Keeps d) in
    once_over-Gives (λ st e'. Ended e') (λ st e'. Free e') _ take_blocking_result
      take_blocking_result-Free
      (blocking_loop-Ended (max_stalled_of e) fuel (error Err.in_progress) e last 0 q)
