-- ===== src/Blocking/Run/Delay.antt =====
-- _runBlockingAdmittedOperation of src/SSD1315.cpp during the display-on delay, on a clock of 32
-- bits that may stand still, run at any pace and wrap around.
use native.Mathlib.Nat.{mul-le-mul_right}
use ssd.Common.{
  Bool-cases, ℕ, zero, suc, Bool, true, false, Option, none, some, ◌+◌, ◌-◌, ◌*◌, ◌≤◌, ◌<◌, ◌≡◌,
  ◌==◌, ◌⊎◌, inl, inr, refl, arith, sub32, u16, if◌then◌else◌,
}
use ssd.Status.{Status, is_in_progress}
use ssd.Config.{Config}
use ssd.Driver.{Driver, OperationProgress}
use ssd.Health.{now_ms}
use ssd.Power.{tick_power_on}
use ssd.Operation.Poll.{max_poll_transactions, poll_delay, poll_operation}
use ssd.Operation.Turns.Keeps.{Running, Ended, finish_operation-Ended}
use ssd.Operation.Turns.Rounds.{in_delay}
use ssd.Blocking.Run.{
  Turn, leave, again, then_turn, operation_progressed, judge_turn, blocking_turn, blocking_loop,
}

-- What the clock shows after `reads` reads.
unfoldable pub sample : Config → ℕ → ℕ
sample c reads = elim c.now_ms [ none ↦ 0 | some f ↦ f reads ]

-- A clock of 32 bits that never leaps by more than 2 ^ 31 milliseconds between two reads.
pub record Steady (c : Config) : Type 0 where
  pub wide : (k : ℕ) → sample c k < 4294967296
  pub near : (k : ℕ) → sub32 (sample c (k + 1)) (sample c k) ≤ 2147483648

abbrev upcoming : Driver → ℕ
upcoming d = sample d.config d.bus.clock_reads

now_ms-sample :
    (d : Driver)
    → ((now_ms d).0 ≡ upcoming d)
      × ((now_ms d).1.config ≡ d.config)
      × ((now_ms d).1.operation ≡ d.operation)
      × (upcoming (now_ms d).1 ≡ sample d.config (d.bus.clock_reads + 1))
unfolding now_ms sample
now_ms-sample d = ground arith

-- The display-on delay of an operation, with the clock value seen last.
record Delaying (d : Driver) (last : ℕ) : Type 0 where
  pub running : Running d
  pub waits : in_delay d ≡ true
  pub guarded : 0 < d.config.display_on_delay_ms
  pub short : d.config.display_on_delay_ms ≤ 2147483648
  pub start_wide : d.operation.delay_start_ms < 4294967296
  pub last_wide : last < 4294967296
  pub near : sub32 (upcoming d) last ≤ 2147483648

-- What is left of the delay, with one more for a delay that has not begun.
unfoldable pub remaining : Driver → ℕ → ℕ
remaining d last =
    if d.operation.delay_started
    then d.config.display_on_delay_ms - sub32 last d.operation.delay_start_ms
    else d.config.display_on_delay_ms + 1

-- A poll that goes on has begun the delay and has not reached its end.
record Polled (d e : Driver) (last : ℕ) : Type 0 where
  pub delaying : Delaying e last
  pub config : e.config ≡ d.config
  pub begun : e.operation.delay_started ≡ true
  pub some_left : 1 ≤ remaining e last
  pub no_more : remaining e last ≤ remaining d last
  pub progress : e.operation.progress ≡ d.operation.progress

-- The first poll of the delay.
begin_delay : Driver → ℕ → Driver
begin_delay d last = record d {
  operation = record (d.operation) { delay_started = true; delay_start_ms = last };
}

begin_delay-Delaying :
    (d : Driver) (last : ℕ) → Delaying d last → Delaying (begin_delay d last) last
unfolding begin_delay
begin_delay-Delaying d last w = record {
  running = record {
    active = w.running.active;
    unread = w.running.unread;
    waiting = w.running.waiting;
    unfinished = w.running.unfinished;
  };
  waits = w.waits;
  guarded = w.guarded;
  short = w.short;
  start_wide = w.last_wide;
  last_wide = w.last_wide;
  near = w.near;
}

poll_delay-Polled :
    (d : Driver) (last : ℕ)
    → Delaying d last
    → let (st, e) = poll_delay d last in Ended e ⊎ Polled d e last × (is_in_progress st ≡ true)
unfolding poll_delay remaining begin_delay
poll_delay-Polled d last w = elim (Bool-cases d.operation.delay_started) [
  | inl begun ↦ grind (arith, finish_operation-Ended)
  | inr fresh ↦ grind (arith, begin_delay-Delaying d last w)
]

-- The modeled power is all that the tick of a poll changes.
pub tick_power_on-config :
    (d : Driver) (now : ℕ)
    → let e = tick_power_on d now in
      (e.config ≡ d.config) × (e.bus ≡ d.bus) × (e.operation ≡ d.operation)
unfolding tick_power_on
tick_power_on-config d now = ground arith

tick_power_on-Delaying :
    (d : Driver) (last : ℕ)
    → Delaying d last
    → let e = tick_power_on d last in Delaying e last × (remaining e last ≡ remaining d last)
unfolding remaining
tick_power_on-Delaying d last w = grind (arith, tick_power_on-config d last)

poll_operation-Polled :
    (d : Driver) (last budget : ℕ)
    → Delaying d last
    → let (st, e) = poll_operation d last max_poll_transactions budget in
      Ended e ⊎ Polled d e last × (is_in_progress st ≡ true)
unfolding poll_operation
poll_operation-Polled d last budget w = grind (
  arith,
  tick_power_on-Delaying d last w,
  tick_power_on-config d last,
  poll_delay-Polled (tick_power_on d last) last,
)

operation_progressed_same : (p : OperationProgress) → operation_progressed p p ≡ false
unfolding operation_progressed
operation_progressed_same p = ground arith

-- An iteration that goes on leaves less of the delay, or counts the clock as standing still.
abbrev Lessens : Driver → ℕ → ℕ → ℕ → Turn → Type 0
Lessens d last stalled max_stalled (leave st e) = 0 ≤ 0
Lessens d last stalled max_stalled (again st e last' stalled') =
    Delaying e last'
    × (e.config ≡ d.config)
    × (stalled' < max_stalled)
    × ((remaining e last' < remaining d last)
        ⊎ (remaining e last' ≤ remaining d last) × (stalled' ≡ stalled + 1))

-- A later sample within a leap leaves less of a delay that is not over.
sub32-later :
    (start last next delay : ℕ)
    → start < 4294967296
    → last < 4294967296
    → next < 4294967296
    → delay ≤ 2147483648
    → 1 ≤ delay - sub32 last start
    → sub32 next last ≤ 2147483648
    → (next == last) ≡ false
    → delay - sub32 next start < delay - sub32 last start
sub32-later start last next delay a b c s l n e = ground arith

read-Delaying :
    (d : Driver) (last : ℕ)
    → Delaying d last
    → Steady d.config
    → let (next, e) = now_ms d in
      Delaying e next × (e.config ≡ d.config) × (e.operation ≡ d.operation)
read-Delaying d last w s =
    let wide = s.wide d.bus.clock_reads in
    let near = s.near d.bus.clock_reads in ground (arith, now_ms-sample d)

read-remaining :
    (d : Driver) (last : ℕ)
    → Delaying d last
    → Steady d.config
    → d.operation.delay_started ≡ true
    → 1 ≤ remaining d last
    → let (next, e) = now_ms d in
      ((next == last) ≡ true) × (remaining e next ≡ remaining d last)
      ⊎ ((next == last) ≡ false) × (remaining e next < remaining d last)
unfolding remaining
read-remaining d last w s b l =
    let (next, e) = now_ms d in
    let wide = s.wide d.bus.clock_reads in grind (arith, now_ms-sample d, sub32-later)

judge_turn-Lessens :
    (st : Status) (d e : Driver) (last stalled max_stalled : ℕ)
    → Polled d e last
    → Steady d.config
    → stalled < max_stalled
    → max_stalled ≤ 8192
    → Lessens d last stalled max_stalled
        (judge_turn d.operation.progress st e last stalled max_stalled)
unfolding judge_turn
judge_turn-Lessens st d e last stalled max_stalled q s a b =
    let w = q.delaying in
    let t : Steady e.config = rw q.config s in
    grind (
      arith,
      read-Delaying e last w t,
      read-remaining e last w t q.begun q.some_left,
      operation_progressed_same,
    )

blocking_turn-Lessens :
    (d : Driver) (last stalled max_stalled : ℕ)
    → Delaying d last
    → Steady d.config
    → stalled < max_stalled
    → max_stalled ≤ 8192
    → Lessens d last stalled max_stalled (blocking_turn d last stalled max_stalled)
unfolding blocking_turn
blocking_turn-Lessens d last stalled max_stalled w s a b =
    let (st, e) = poll_operation d last max_poll_transactions (u16 d.config.byte_budget_per_tick) in
    grind (
      arith,
      poll_operation-Polled d last (u16 d.config.byte_budget_per_tick) w,
      judge_turn-Lessens st d e last stalled max_stalled,
    )

-- The loop has ended.
abbrev pub has_ended : Option (Status × Driver) → Bool
has_ended none = false
has_ended (some r) = true

-- The iterations that are enough: the guard for each millisecond of the delay.
unfoldable pub enough : ℕ → ℕ → ℕ → ℕ
enough left stalled max_stalled = left * max_stalled + (max_stalled - stalled)

pub enough-falls :
    (left left' stalled stalled' max_stalled : ℕ)
    → stalled < max_stalled
    → (left' < left) ⊎ (left' ≤ left) × (stalled' ≡ stalled + 1)
    → enough left' stalled' max_stalled < enough left stalled max_stalled
unfolding enough
enough-falls left left' stalled stalled' m a (inl lt) =
    let k : suc left' * m ≤ left * m = mul-le-mul_right m lt in grind arith
enough-falls left left' stalled stalled' m a (inr (le, eq)) =
    let k : left' * m ≤ left * m = mul-le-mul_right m le in grind arith

then_turn_ended :
    (d : Driver) (last stalled max_stalled : ℕ) (t : Turn)
    (rest : Status → Driver → ℕ → ℕ → Option (Status × Driver))
    → Lessens d last stalled max_stalled t
    → ((st : Status) (e : Driver) (last' stalled' : ℕ)
        → Lessens d last stalled max_stalled (again st e last' stalled')
        → has_ended (rest st e last' stalled') ≡ true)
    → has_ended (then_turn t rest) ≡ true
then_turn_ended d last stalled m (leave st e) rest l more = refl
then_turn_ended d last stalled m (again st e last' stalled') rest l more =
    more st e last' stalled' l

delay_ended :
    (max_stalled fuel : ℕ) (st : Status) (d : Driver) (last stalled : ℕ)
    → Delaying d last
    → Steady d.config
    → stalled < max_stalled
    → max_stalled ≤ 8192
    → enough (remaining d last) stalled max_stalled ≤ fuel
    → has_ended (blocking_loop max_stalled fuel st d last stalled) ≡ true
unfolding blocking_loop enough
delay_ended m zero st d last stalled w s a b h = absurd (omega arith)
delay_ended m (suc fuel) st d last stalled w s a b h =
    let k =
      then_turn_ended d last stalled m (blocking_turn d last stalled m) (blocking_loop m fuel)
        (blocking_turn-Lessens d last stalled m w s a b)
        (λ st' e last' stalled' (v, c, lt, f).
          let g = enough-falls (remaining d last) (remaining e last') stalled stalled' m a f in
          delay_ended m fuel st' e last' stalled' v (rw c s) lt b (omega arith)) in
    rw (w.running.active, blocking_loop) k

-- An operation in its display-on delay, which is at least a millisecond long, with the clock value
-- seen last.
pub record InDelay (d : Driver) (last : ℕ) : Type 0 where
  pub running : Running d
  pub waits : in_delay d ≡ true
  pub guarded : 0 < d.config.display_on_delay_ms
  pub wide : (d.operation.delay_start_ms < 4294967296) × (last < 4294967296)

-- During a display-on delay of 1 to 2 ^ 31 milliseconds a blocking loop ends, on every clock of 32
-- bits that never leaps by more than 2 ^ 31 milliseconds from one read to the next, moving or not:
-- the guard for each millisecond that is left is enough.
pub blocking_loop_ended :
    (max_stalled fuel : ℕ) (st : Status) (d : Driver) (last stalled : ℕ)
    → InDelay d last
    → d.config.display_on_delay_ms ≤ 2147483648
    → Steady d.config
    → sub32 (sample d.config d.bus.clock_reads) last ≤ 2147483648
    → stalled < max_stalled
    → max_stalled ≤ 8192
    → enough (remaining d last) stalled max_stalled ≤ fuel
    → has_ended (blocking_loop max_stalled fuel st d last stalled) ≡ true
blocking_loop_ended m fuel st d last stalled w short s near a b h =
    delay_ended m fuel st d last stalled
      (record {
        running = w.running;
        waits = w.waits;
        guarded = w.guarded;
        short = short;
        start_wide = (w.wide).0;
        last_wide = (w.wide).1;
        near = near;
      })
      s a b h
