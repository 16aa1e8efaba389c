-- ===== src/Operation/Poll/Fuel.antt =====
-- The loop of pollOperation of src/SSD1315.cpp ends within its fuel: a round uses a transaction or
-- leads to DISPLAY_ON, and DISPLAY_ON ends the poll.
use ssd.Common.{
  ◌-◌, ℕ, Bool, Option, none, some, zero, suc, true, false, ◌+◌, ◌≤◌, ◌<◌, ◌≡◌, refl, arith,
  if◌then◌else◌,
}
use ssd.Status.{Status}
use ssd.Driver.{Driver, OperationPhase, operation_active, is_phase}
use ssd.Flush.Poll.{Step, stop, next, then_run}
use ssd.Operation.Init.{poll_initialize_phase}
use ssd.Operation.Phases.{
  after_initialize, initialize_round, flush_round, display_off_round, display_on_round,
  charge_pump_off_round, scroll_deactivate_round, scroll_configure_round, scroll_activate_round,
  idle_round, operation_round,
}
use ssd.Operation.Poll.{operation_loop}

-- Rounds that the loop may still take.
abbrev pub rounds : OperationPhase → ℕ → ℕ
rounds p left = if is_phase p OperationPhase.display_on then left else left + 1

-- A round that ends the loop with a result, or goes on with `rest`.
abbrev pub run_on : Step → (Driver → ℕ → Option (Status × Driver)) → Option (Status × Driver)
run_on (stop st e) rest = some (st, e)
run_on (next e left) rest = rest e left

-- The rounds go down.
abbrev Falls : OperationPhase → ℕ → Step → Type 0
Falls p left (stop st e) = 0 ≤ left
Falls p left (next e left') = rounds e.operation.progress.phase left' < rounds p left

record Descends (p : OperationPhase) (left : ℕ) (r : Step) : Type 0 where
  pub falls : Falls p left r

after_initialize-Descends :
    (d : Driver) (left k : ℕ)
    → k < left
    → Descends OperationPhase.initialize_command left (after_initialize d k)
unfolding after_initialize
after_initialize-Descends d left k lt = ground arith

initialize_round-Descends :
    (d : Driver) (left : ℕ)
    → Descends OperationPhase.initialize_command left (initialize_round d left)
unfolding initialize_round
initialize_round-Descends d left =
    let e = (poll_initialize_phase d).1 in
    ground (arith, after_initialize-Descends e left (left - 1))

flush_round-Descends :
    (p : OperationPhase) (d : Driver) (now left budget : ℕ)
    → is_phase p OperationPhase.display_on ≡ false
    → Descends p left (flush_round d now left budget)
unfolding flush_round
flush_round-Descends p d now left budget h = ground arith

display_off_round-Descends :
    (d : Driver) (left : ℕ) → Descends OperationPhase.display_off left (display_off_round d left)
unfolding display_off_round
display_off_round-Descends d left = ground arith

display_on_round-Descends :
    (d : Driver) (left : ℕ) → Descends OperationPhase.display_on left (display_on_round d left)
unfolding display_on_round
display_on_round-Descends d left = ground arith

charge_pump_off_round-Descends :
    (d : Driver) (left : ℕ)
    → Descends OperationPhase.charge_pump_off left (charge_pump_off_round d left)
unfolding charge_pump_off_round
charge_pump_off_round-Descends d left = ground arith

scroll_deactivate_round-Descends :
    (d : Driver) (left : ℕ)
    → Descends OperationPhase.scroll_deactivate left (scroll_deactivate_round d left)
unfolding scroll_deactivate_round
scroll_deactivate_round-Descends d left = ground arith

scroll_configure_round-Descends :
    (d : Driver) (left : ℕ)
    → Descends OperationPhase.scroll_configure left (scroll_configure_round d left)
unfolding scroll_configure_round
scroll_configure_round-Descends d left = ground arith

scroll_activate_round-Descends :
    (d : Driver) (left : ℕ)
    → Descends OperationPhase.scroll_activate left (scroll_activate_round d left)
unfolding scroll_activate_round
scroll_activate_round-Descends d left = ground arith

idle_round-Descends :
    (d : Driver) (left : ℕ) → Descends OperationPhase.idle left (idle_round d left)
unfolding idle_round
idle_round-Descends d left = ground arith

operation_round-Descends :
    (p : OperationPhase) (d : Driver) (now left budget : ℕ)
    → Descends p left (operation_round p d now left budget)
unfolding operation_round
operation_round-Descends OperationPhase.initialize_command d now left budget =
    initialize_round-Descends d left
operation_round-Descends OperationPhase.set_col_addr d now left budget =
    flush_round-Descends OperationPhase.set_col_addr d now left budget refl
operation_round-Descends OperationPhase.set_page_addr d now left budget =
    flush_round-Descends OperationPhase.set_page_addr d now left budget refl
operation_round-Descends OperationPhase.send_data d now left budget =
    flush_round-Descends OperationPhase.send_data d now left budget refl
operation_round-Descends OperationPhase.display_off d now left budget =
    display_off_round-Descends d left
operation_round-Descends OperationPhase.display_on d now left budget =
    display_on_round-Descends d left
operation_round-Descends OperationPhase.charge_pump_off d now left budget =
    charge_pump_off_round-Descends d left
operation_round-Descends OperationPhase.scroll_deactivate d now left budget =
    scroll_deactivate_round-Descends d left
operation_round-Descends OperationPhase.scroll_configure d now left budget =
    scroll_configure_round-Descends d left
operation_round-Descends OperationPhase.scroll_activate d now left budget =
    scroll_activate_round-Descends d left
operation_round-Descends OperationPhase.idle d now left budget = idle_round-Descends d left
operation_round-Descends _ d now left budget = omega arith

-- The loop as a fuel-free reader sees it: a result once the loop ends by itself, `none` while the
-- rounds run out first.
unfoldable pub operation_run : ℕ → Driver → ℕ → ℕ → ℕ → Option (Status × Driver)
operation_run zero d now left budget = none
operation_run (suc n) d now left budget = elim (operation_active d) [
  | false ↦ some (d.operation.progress.status, d)
  | true ↦
      run_on (operation_round d.operation.progress.phase d now left budget)
        λ e left'. operation_run n e now left' budget
]

then_run_same :
    (r : Step) (p : OperationPhase) (left : ℕ) (f : Driver → ℕ → Option (Status × Driver))
    (g : Driver → ℕ → Status × Driver)
    → Descends p left r
    → ((e : Driver) (left' : ℕ)
        → rounds e.operation.progress.phase left' < rounds p left
        → f e left' ≡ some (g e left'))
    → run_on r f ≡ some (then_run r g)
then_run_same (stop st e) p left f g s same = refl
then_run_same (next e left') p left f g s same = same e left' s.falls

by_activity :
    (active : Bool) (over : Status × Driver) {r : Option (Status × Driver)} {t : Status × Driver}
    → r ≡ some t
    → elim active [ false ↦ some over | true ↦ r ] ≡ some (elim active [ false ↦ over | true ↦ t ])
by_activity false over e = refl
by_activity true over e = e

within_rounds :
    (n m : ℕ) (d : Driver) (now left budget : ℕ)
    → rounds d.operation.progress.phase left < n
    → rounds d.operation.progress.phase left < m
    → operation_run n d now left budget ≡ some (operation_loop m d now left budget)
unfolding operation_loop operation_run
within_rounds zero m d now left budget h k = absurd (omega arith)
within_rounds (suc n) zero d now left budget h k = absurd (omega arith)
within_rounds (suc n) (suc m) d now left budget h k =
    let p = d.operation.progress.phase in
    by_activity (operation_active d) (d.operation.progress.status, d)
      (then_run_same (operation_round p d now left budget) p left _ _
        (operation_round-Descends p d now left budget)
        (λ e left' lt. within_rounds n m e now left' budget (omega arith) (omega arith)))

-- With `left` transactions, the loop ends by itself within `left + 2` rounds, with the operation
-- over or by a round that returned, and never because the fuel is used up. More fuel gives the
-- same result.
pub operation_loop_enough :
    (n : ℕ) (d : Driver) (now left budget : ℕ)
    → left + 2 ≤ n
    → operation_run n d now left budget ≡ some (operation_loop (left + 2) d now left budget)
operation_loop_enough n d now left budget h =
    within_rounds n (left + 2) d now left budget (grind arith) (grind arith)
