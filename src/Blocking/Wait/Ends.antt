-- ===== src/Blocking/Wait/Ends.antt =====
-- waitFlush of src/SSD1315.cpp comes back: the clock rises to the timeout, the flush moves on, or the
-- stall guard runs out.
use mathlib.Core.Path.{subst}
use ssd.Common.{
  ℕ, zero, suc, true, false, Bool-cases, Option, ◌+◌, ◌-◌, ◌≤◌, ◌<◌, ◌≡◌, ◌⊎◌, leb, sym, inl, inr,
  refl, arith, sub32,
}
use ssd.Status.{Status}
use ssd.Config.{Config}
use ssd.Driver.{Driver, operation_active}
use ssd.Health.{now_ms}
use ssd.Blocking.Run.{Turn, leave, again, then_turn}
use ssd.Blocking.Run.Delay.{has_ended, enough, enough-falls}
use ssd.Blocking.Wait.{
  is_settled, give_up, power_value, sample, bounded_tick, flush_progressed, judge_wait, wait_turn,
  wait_loop,
}
use ssd.Blocking.Wait.Grows.{InRange, Grows, bounded_tick-Grows}
use ssd.Blocking.Wait.Clock.{shows, Rising, le_then, rises-le}

-- A wait that goes on, with the clock value observed last.
pub record Awaits (start : ℕ) (d : Driver) (last : ℕ) : Type 0 where
  pub inactive : operation_active d ≡ false
  pub read : d.operation.result_ready ≡ false
  pub range : InRange d
  pub rising : Rising d.config start
  pub seen : start ≤ last
  pub recent : last ≤ shows d.config start d.bus.clock_reads

-- What is left: of the time, of the counters, and of the power-up.
unfoldable pub to_go : ℕ → ℕ → Driver → ℕ → ℕ
to_go start timeout_ms d last =
    timeout_ms
    - (last - start)
    + (65535 - d.flush.transaction_count)
    + (4294967295 - d.flush.bytes_completed)
    + (2 - power_value d.panel.power_state)

abbrev Nears : ℕ → ℕ → Driver → ℕ → ℕ → ℕ → Turn → Type 0
Nears start timeout_ms d last stalled m (leave st e) = 0 ≤ 0
Nears start timeout_ms d last stalled m (again st e last' stalled') =
    Awaits start e last'
    × (stalled' < m)
    × ((to_go start timeout_ms e last' < to_go start timeout_ms d last)
        ⊎ (to_go start timeout_ms e last' ≤ to_go start timeout_ms d last)
          × (stalled' ≡ stalled + 1))

judge_wait-Nears :
    (start timeout_ms : ℕ) (d e : Driver) (current last stalled m : ℕ)
    → Grows d e
    → Awaits start e last
    → Awaits start e current
    → last ≤ current
    → current - start < timeout_ms
    → stalled < m
    → m ≤ 8192
    → Nears start timeout_ms d last stalled m (judge_wait d e current last stalled m)
unfolding judge_wait to_go flush_progressed
judge_wait-Nears start timeout_ms d e current last stalled m g a b le lt s k =
    ground (arith, g, a, b, le, lt, s, k)

sample-shows :
    (start : ℕ) (d : Driver)
    → let (current, e) = sample d start in
      (current ≡ shows d.config start d.bus.clock_reads)
      × (e.config ≡ d.config)
      × (e.operation ≡ d.operation)
      × (e.flush ≡ d.flush)
      × (e.panel ≡ d.panel)
      × (d.bus.clock_reads ≤ e.bus.clock_reads)
unfolding sample shows now_ms
sample-shows start d = ground arith

-- A tick after the clock showed `seen` keeps a wait awaiting.
later-Awaits :
    (start : ℕ) (d e : Driver) (seen : ℕ) → Awaits start d seen → Grows d e → Awaits start e seen
later-Awaits start d e seen a g =
    let rising : Rising e.config start =
      subst (λ (c : Config). Rising c start) (sym g.config) a.rising in
    let recent : seen ≤ shows d.config start e.bus.clock_reads =
      le_then _ _ _ a.recent
        (rises-le d.config start d.bus.clock_reads e.bus.clock_reads a.rising g.reads) in
    record {
      inactive = rw g.operation a.inactive;
      read = rw g.operation a.read;
      range = g.kept;
      rising = rising;
      seen = a.seen;
      recent = subst (λ (c : Config). seen ≤ shows c start e.bus.clock_reads) (sym g.config) recent;
    }

-- The driver after the clock was read, with the value that was seen before or the new one.
sample-Awaits :
    (start : ℕ) (d : Driver) (last : ℕ)
    → Awaits start d last
    → let (current, e) = sample d start in
      Grows d e
      × Awaits start e last
      × Awaits start e current
      × (last ≤ current)
      × (current < 4294967296)
sample-Awaits start d last a =
    let (current, e) = sample d start in
    let q = sample-shows start d in
    let g : Grows d e = ground (arith, q, a.range) in
    let wide = a.rising.wide d.bus.clock_reads in
    let from = a.rising.later d.bus.clock_reads in
    let here : Awaits start d current = record {
      inactive = a.inactive;
      read = a.read;
      range = a.range;
      rising = a.rising;
      seen = omega (arith, q, from);
      recent = omega (arith, q);
    } in
    (
      g,
      later-Awaits start d e last a g,
      later-Awaits start d e current here g,
      omega (arith, q, a.recent),
      omega (arith, q, wide),
    )

to_go_same :
    (start timeout_ms : ℕ) (d e : Driver) (last : ℕ)
    → e.flush ≡ d.flush
    → e.panel ≡ d.panel
    → to_go start timeout_ms e last ≡ to_go start timeout_ms d last
unfolding to_go
to_go_same start timeout_ms d e last f p = rw (f, p) refl

Nears-same :
    (start timeout_ms : ℕ) (d e : Driver) (last stalled m : ℕ) (t : Turn)
    → to_go start timeout_ms e last ≡ to_go start timeout_ms d last
    → Nears start timeout_ms e last stalled m t
    → Nears start timeout_ms d last stalled m t
Nears-same start timeout_ms d e last stalled m (leave st f) same n = omega arith
Nears-same start timeout_ms d e last stalled m (again st f last' stalled') same n = rw (← same) n

elapsed_lem :
    (start current timeout_ms : ℕ)
    → start ≤ current
    → current < 4294967296
    → leb timeout_ms (sub32 current start) ≡ false
    → current - start < timeout_ms
elapsed_lem start current timeout_ms h k e = ground arith

left_Nears :
    (start timeout_ms : ℕ) (d : Driver) (last stalled m : ℕ) (r : Status × Driver)
    → Nears start timeout_ms d last stalled m (leave r.0 r.1)
left_Nears start timeout_ms d last stalled m r = omega arith

wait_turn-Nears :
    (start timeout_ms : ℕ) (d : Driver) (last stalled m : ℕ)
    → Awaits start d last
    → stalled < m
    → m ≤ 8192
    → Nears start timeout_ms d last stalled m (wait_turn m start timeout_ms d last stalled)
unfolding wait_turn
wait_turn-Nears start timeout_ms d last stalled m a s k =
    let (current, e) = sample d start in
    let q = sample-shows start d in
    let (g, old, new, le, wide) = sample-Awaits start d last a in
    let elapsed = sub32 current start in
    elim (Bool-cases (is_settled d)) [
      | inl settled ↦ rw settled (omega arith)
      | inr waits ↦ rw waits (elim (Bool-cases (leb timeout_ms elapsed)) [
        | inl over ↦ rw over (left_Nears start timeout_ms d last stalled m (give_up e))
        | inr time ↦
            let t = bounded_tick e current (timeout_ms - elapsed) in
            let h =
              bounded_tick-Grows e current (timeout_ms - elapsed) new.inactive new.read new.range in
            let lt = elapsed_lem start current timeout_ms new.seen wide time in
            let n =
              judge_wait-Nears start timeout_ms e t current last stalled m h
                (later-Awaits start e t last old h) (later-Awaits start e t current new h) le lt s
                k in
            rw time (
              Nears-same start timeout_ms d e last stalled m _
                (to_go_same start timeout_ms d e last q.3 q.4) n)
      ])
    ]

then_turn_ended :
    (start timeout_ms : ℕ) (d : Driver) (last stalled m : ℕ) (t : Turn)
    (rest : Status → Driver → ℕ → ℕ → Option (Status × Driver))
    → Nears start timeout_ms d last stalled m t
    → ((st : Status) (e : Driver) (last' stalled' : ℕ)
        → Nears start timeout_ms d last stalled m (again st e last' stalled')
        → has_ended (rest st e last' stalled') ≡ true)
    → has_ended (then_turn t rest) ≡ true
then_turn_ended start timeout_ms d last stalled m (leave st e) rest n more = refl
then_turn_ended start timeout_ms d last stalled m (again st e last' stalled') rest n more =
    more st e last' stalled' n

fuel_left : (left stalled m : ℕ) → stalled < m → enough left stalled m ≤ 0 → ⊥
unfolding enough
fuel_left left stalled m s h = omega (arith, s, h)

pub wait_loop_ended :
    (m start timeout_ms fuel : ℕ) (st : Status) (d : Driver) (last stalled : ℕ)
    → Awaits start d last
    → stalled < m
    → m ≤ 8192
    → enough (to_go start timeout_ms d last) stalled m ≤ fuel
    → has_ended (wait_loop m start timeout_ms fuel st d last stalled) ≡ true
unfolding wait_loop
wait_loop_ended m start timeout_ms zero st d last stalled a s k h = absurd (fuel_left _ _ _ s h)
wait_loop_ended m start timeout_ms (suc fuel) st d last stalled a s k h =
    then_turn_ended start timeout_ms d last stalled m (wait_turn m start timeout_ms d last stalled)
      (wait_loop m start timeout_ms fuel) (wait_turn-Nears start timeout_ms d last stalled m a s k)
      (λ st' e last' stalled' (b, lt, f).
        let g =
          enough-falls (to_go start timeout_ms d last) (to_go start timeout_ms e last') stalled
            stalled' m s f in
        wait_loop_ended m start timeout_ms fuel st' e last' stalled' b lt k (omega (arith, g, h)))
