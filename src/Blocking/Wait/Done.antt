-- ===== src/Blocking/Wait/Done.antt =====
-- waitFlush of src/SSD1315.cpp, when it comes back: it was refused and changed nothing, or no flush
-- runs.
use ssd.Common.{ℕ, zero, suc, true, false, Option, ◌≤◌, ◌≡◌, ◌⊎◌, inr, arith}
use ssd.Status.{Status, Err, error, success}
use ssd.Driver.{Driver, FlushState, is_flushing}
use ssd.Health.{flush_failure}
use ssd.Flush.Terminal.{publish_flush, fail_flush, consume_terminal_flush}
use ssd.Traffic.Quiet.{update_health-Bookkept}
use ssd.Blocking.Guard.{wait_flush_stall_guard_iterations}
use ssd.Blocking.Run.{Turn, leave, again, then_turn}
use ssd.Blocking.Run.Free.{Gives, Gives-mono}
use ssd.Blocking.Wait.{
  is_settled, finish_wait, give_up, judge_wait, wait_turn, wait_loop, wait_timeout, wait_flush,
}

-- A failed flush is in the error state.
pub fail_flush_state : (d : Driver) (st : Status) → (fail_flush d st).flush.state ≡ FlushState.error
unfolding fail_flush publish_flush
fail_flush_state d st = grind (arith, update_health-Bookkept)

consume_terminal_flush_state :
    (d : Driver) → is_flushing d ≡ false → is_flushing (consume_terminal_flush d).1 ≡ false
unfolding consume_terminal_flush
consume_terminal_flush_state d h =
    ground (arith, update_health-Bookkept d success, update_health-Bookkept d (flush_failure d))

finish_wait_state : (d : Driver) → is_settled d ≡ true → is_flushing (finish_wait d).1 ≡ false
unfolding finish_wait
finish_wait_state d h = grind (arith, consume_terminal_flush_state)

give_up_state : (d : Driver) → is_flushing (give_up d).1 ≡ false
unfolding give_up
give_up_state d = grind (
  arith,
  fail_flush_state d (error Err.timeout),
  consume_terminal_flush_state (fail_flush d (error Err.timeout)),
)

abbrev LeavesIdle : Turn → Type 0
LeavesIdle (leave st e) = is_flushing e ≡ false
LeavesIdle (again st e last stalled) = 0 ≤ 0

judge_wait-LeavesIdle :
    (before d : Driver) (current last stalled max_stalled : ℕ)
    → LeavesIdle (judge_wait before d current last stalled max_stalled)
unfolding judge_wait
judge_wait-LeavesIdle before d current last stalled m =
    grind (arith, give_up_state d, finish_wait_state d)

wait_turn-LeavesIdle :
    (m start timeout_ms : ℕ) (d : Driver) (last stalled : ℕ)
    → LeavesIdle (wait_turn m start timeout_ms d last stalled)
unfolding wait_turn
wait_turn-LeavesIdle m start timeout_ms d last stalled =
    grind (arith, give_up_state, finish_wait_state d, judge_wait-LeavesIdle)

then_turn-LeavesIdle :
    (t : Turn) (rest : Status → Driver → ℕ → ℕ → Option (Status × Driver))
    → LeavesIdle t
    → ((st : Status) (e : Driver) (last stalled : ℕ)
        → Gives (λ st' e'. is_flushing e' ≡ false) (rest st e last stalled))
    → Gives (λ st' e'. is_flushing e' ≡ false) (then_turn t rest)
then_turn-LeavesIdle (leave st e) rest o more = o
then_turn-LeavesIdle (again st e last stalled) rest o more = more st e last stalled

wait_loop_state :
    (m start timeout_ms fuel : ℕ) (st : Status) (d : Driver) (last stalled : ℕ)
    → Gives (λ st' e. is_flushing e ≡ false) (wait_loop m start timeout_ms fuel st d last stalled)
unfolding wait_loop
wait_loop_state m start timeout_ms zero st d last stalled = omega arith
wait_loop_state m start timeout_ms (suc fuel) st d last stalled =
    then_turn-LeavesIdle (wait_turn m start timeout_ms d last stalled)
      (wait_loop m start timeout_ms fuel) (wait_turn-LeavesIdle m start timeout_ms d last stalled)
      (wait_loop_state m start timeout_ms fuel)

-- Refused with nothing changed, or with no flush running.
abbrev pub WaitedFor : Driver → Status → Driver → Type 0
WaitedFor d st e =
    (e ≡ d) × ((st ≡ error Err.busy) ⊎ (st ≡ error Err.not_initialized)) ⊎ (is_flushing e ≡ false)

-- When a wait comes back, it was refused with `busy` or `not_initialized` and changed nothing, or no
-- flush runs: it has ended, by itself or as timed out.
pub wait_flush-WaitedFor :
    (fuel : ℕ) (d : Driver) (now timeout_ms : ℕ)
    → Gives (WaitedFor d) (wait_flush fuel d now timeout_ms)
unfolding wait_flush
wait_flush-WaitedFor fuel d now timeout_ms =
    let t = wait_timeout d timeout_ms in
    let m = wait_flush_stall_guard_iterations t d.config.i2c_timeout_ms in
    let k =
      Gives-mono (λ st e. is_flushing e ≡ false) (WaitedFor d)
        (wait_loop m now t fuel success d now 0) (λ st e h. inr h)
        (wait_loop_state m now t fuel success d now 0) in
    ground (arith, k)
