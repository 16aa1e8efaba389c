-- ===== src/Blocking/Run/Ends.antt =====
-- Blocking calls of src/SSD1315.cpp that end, whatever the clock shows, the transport answers and
-- the caller had set up: the scroll starts, and an initialization.
use ssd.Common.{ℕ, zero, suc, true, Option, none, some, ◌≤◌, ◌<◌, ◌≡◌, refl, arith, u16}
use ssd.Status.{Status, Err, error}
use ssd.Driver.{Driver, OperationProgress}
use ssd.Health.{now_ms}
use ssd.Power.{tick_power_on}
use ssd.Operation.Poll.{max_poll_transactions, with_timeout, poll_transactions, poll_operation}
use ssd.Blocking.Run.{
  Turn, leave, again, then_turn, judge_turn, blocking_turn, blocking_loop, max_stalled_of,
  once_over, take_blocking_result, run_blocking_admitted_operation,
}
use ssd.Blocking.Run.Free.{now_ms-Keeps}
use ssd.Blocking.Run.Delay.{tick_power_on-config, has_ended}
use ssd.Blocking.Run.Steps.{Stepping, Nearer, need_of, operation_loop-Nearer}

with_timeout-Stepping :
    (d : Driver) (now : ℕ)
    → Stepping d
    → Stepping (with_timeout d now) × (need_of (with_timeout d now) ≡ need_of d)
unfolding with_timeout
with_timeout-Stepping d now s = ground arith

tick_power_on-Stepping :
    (d : Driver) (now : ℕ)
    → Stepping d
    → Stepping (tick_power_on d now) × (need_of (tick_power_on d now) ≡ need_of d)
tick_power_on-Stepping d now s = ground (arith, tick_power_on-config d now)

poll_transactions-Nearer :
    (d : Driver) (now budget : ℕ)
    → Stepping d
    → Nearer (need_of d) (poll_transactions d now max_poll_transactions budget).1
unfolding poll_transactions
poll_transactions-Nearer d now budget s =
    grind (arith, with_timeout-Stepping, operation_loop-Nearer)

poll_operation-Nearer :
    (d : Driver) (now budget : ℕ)
    → Stepping d
    → Nearer (need_of d) (poll_operation d now max_poll_transactions budget).1
unfolding poll_operation
poll_operation-Nearer d now budget s =
    let e = tick_power_on d now in
    let k = s.some_need in
    grind (arith, tick_power_on-Stepping d now s, poll_transactions-Nearer e now)

-- An iteration that goes on is closer to the end.
abbrev TurnNearer : ℕ → Turn → Type 0
TurnNearer n (leave st e) = 0 ≤ 0
TurnNearer n (again st e last stalled) = Stepping e × (need_of e < n)

judge_turn-TurnNearer :
    (p : OperationProgress) (st : Status) (d : Driver) (last stalled max_stalled n : ℕ)
    → Stepping d
    → need_of d < n
    → TurnNearer n (judge_turn p st d last stalled max_stalled)
unfolding judge_turn
judge_turn-TurnNearer p st d last stalled max_stalled n s h = ground (arith, now_ms-Keeps d)

blocking_turn-TurnNearer :
    (d : Driver) (last stalled max_stalled : ℕ)
    → Stepping d
    → TurnNearer (need_of d) (blocking_turn d last stalled max_stalled)
unfolding blocking_turn
blocking_turn-TurnNearer d last stalled max_stalled s = grind (
  arith,
  poll_operation-Nearer d last (u16 d.config.byte_budget_per_tick) s,
  judge_turn-TurnNearer,
)

then_turn-has_ended :
    (n : ℕ) (t : Turn) (rest : Status → Driver → ℕ → ℕ → Option (Status × Driver))
    → TurnNearer n t
    → ((st : Status) (e : Driver) (last stalled : ℕ)
        → Stepping e
        → need_of e < n
        → has_ended (rest st e last stalled) ≡ true)
    → has_ended (then_turn t rest) ≡ true
then_turn-has_ended n (leave st e) rest o more = refl
then_turn-has_ended n (again st e last stalled) rest (s, lt) more = more st e last stalled s lt

blocking_loop-has_ended :
    (max_stalled fuel : ℕ) (st : Status) (d : Driver) (last stalled : ℕ)
    → Stepping d
    → need_of d ≤ fuel
    → has_ended (blocking_loop max_stalled fuel st d last stalled) ≡ true
unfolding blocking_loop
blocking_loop-has_ended m zero st d last stalled s h = let k = s.some_need in absurd (omega arith)
blocking_loop-has_ended m (suc fuel) st d last stalled s h =
    let k =
      then_turn-has_ended (need_of d) (blocking_turn d last stalled m) (blocking_loop m fuel)
        (blocking_turn-TurnNearer d last stalled m s)
        (λ st' e last' stalled' q lt.
          blocking_loop-has_ended m fuel st' e last' stalled' q (omega arith)) in
    rw (s.running.active, blocking_loop) k

once_over-has_ended :
    (r : Option (Status × Driver)) (f : Status × Driver → Status × Driver)
    → has_ended r ≡ true
    → has_ended (once_over r f) ≡ true
once_over-has_ended none f h = h
once_over-has_ended (some r) f h = refl

-- An admitted operation of single commands ends within as many iterations as it has commands.
pub run_blocking_admitted_operation-has_ended :
    (fuel : ℕ) (d : Driver)
    → Stepping d
    → need_of d ≤ fuel
    → has_ended (run_blocking_admitted_operation fuel d) ≡ true
unfolding run_blocking_admitted_operation
run_blocking_admitted_operation-has_ended fuel d s h =
    let (last, e) = now_ms d in
    let q : Stepping e × (need_of e ≡ need_of d) = ground (arith, now_ms-Keeps d) in
    once_over-has_ended _ take_blocking_result (
      blocking_loop-has_ended (max_stalled_of e) fuel (error Err.in_progress) e last 0 q.0
        (grind (arith, h, q.1)))
