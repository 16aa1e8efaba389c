-- ===== src/Operation/Turns/Rounds.antt =====
-- One round of pollOperation of src/SSD1315.cpp: the operation runs on, or it ends with a result.
use ssd.Common.{ℕ, Bool, true, false, ◌≡◌, ◌⊎◌, ◌-◌, arith}
use ssd.Status.{Status, is_ok, is_in_progress}
use ssd.Driver.{Driver, OperationPhase, FlushState, is_phase}
use ssd.Flush.Poll.{Step, stop, next}
use ssd.Operation.Finish.{flush_phase, sync_operation_from_flush}
use ssd.Operation.Init.{finish_initialize, poll_initialize_phase}
use ssd.Operation.Phases.{
  after_initialize, initialize_round, poll_flush_phase, flush_round, display_off_round,
  display_on_round, charge_pump_off_round, scroll_deactivate_round, scroll_configure_round,
  scroll_activate_round, idle_round, operation_round,
}
use ssd.Power.{clear_control_state_dirty}
use ssd.Traffic.Quiet.{mark_all_dirty-OnlyDirty}
use ssd.Operation.Turns.Flush.{poll_flush_internal-Keeps}
use ssd.Traffic.Request.{request_flush_internal-Untouched}
use ssd.Operation.Turns.Keeps.{
  Running, Ended, mark_control_state_dirty-Keeps, invalidate_modeled_panel_power-Keeps,
  send_command-Keeps, send_command2-Keeps, send_init_step-Keeps, send_init_step_definite,
  scroll_setup-Keeps, on_scroll_deactivated-Keeps, finish_operation-Ended, fail_operation-Ended,
}

abbrev pub in_delay : Driver → Bool
in_delay d = is_phase d.operation.progress.phase OperationPhase.display_on_delay

-- Running, outside the display-on delay.
pub record Rolling (d : Driver) : Type 0 where
  pub running : Running d
  pub no_delay : in_delay d ≡ false

-- Running, or ended.
abbrev pub Open : Driver → Type 0
Open d = Running d ⊎ Ended d

-- What a call leaves: the operation runs and the call said so, or it has ended.
abbrev pub Turned : Status → Driver → Type 0
Turned st d = Running d × (is_in_progress st ≡ true) ⊎ Ended d

-- A round that goes on leaves the operation running, and not in the display-on delay.
abbrev pub RoundOpen : Step → Type 0
RoundOpen (stop st e) = Turned st e
RoundOpen (next e left) = Rolling e

finish_initialize-Rolling : (d : Driver) → Rolling d → Rolling (finish_initialize d)
unfolding finish_initialize clear_control_state_dirty
finish_initialize-Rolling d r = grind (arith, mark_all_dirty-OnlyDirty)

-- A failure of an initialization step ends the operation, and is no `in_progress`.
poll_initialize_phase_lem :
    (d : Driver)
    → Rolling d
    → let (st, e) = poll_initialize_phase d in
      Rolling e × ((is_ok st ≡ true) ⊎ (is_in_progress st ≡ true))
      ⊎ Ended e × (is_ok st ≡ false) × (is_in_progress st ≡ false)
unfolding poll_initialize_phase
poll_initialize_phase_lem d r = grind (
  arith, send_init_step-Keeps, send_init_step_definite, invalidate_modeled_panel_power-Keeps,
  mark_control_state_dirty-Keeps, fail_operation-Ended, finish_initialize-Rolling,
)

-- The phases of a flush are neither the display-on delay nor the last one.
pub flush_phase_lem :
    (s : FlushState) (p : OperationPhase)
    → is_phase p OperationPhase.display_on_delay ≡ false
    → is_phase p OperationPhase.complete ≡ false
    → (is_phase (flush_phase s p) OperationPhase.display_on_delay ≡ false)
      × (is_phase (flush_phase s p) OperationPhase.complete ≡ false)
unfolding flush_phase
flush_phase_lem s p h k = ground arith

sync_operation_from_flush-Rolling : (d : Driver) → Rolling d → Rolling (sync_operation_from_flush d)
unfolding sync_operation_from_flush
sync_operation_from_flush-Rolling d r = ground (
  arith,
  flush_phase_lem d.flush.state d.operation.progress.phase r.no_delay r.running.unfinished,
)

after_initialize-RoundOpen :
    (d : Driver) (left : ℕ) → Rolling d → RoundOpen (after_initialize d left)
unfolding after_initialize
after_initialize-RoundOpen d left r = grind (
  arith, finish_operation-Ended, request_flush_internal-Untouched, fail_operation-Ended,
  sync_operation_from_flush-Rolling,
)

initialize_round-RoundOpen :
    (d : Driver) (left : ℕ) → Rolling d → RoundOpen (initialize_round d left)
unfolding initialize_round
initialize_round-RoundOpen d left r =
    let e = (poll_initialize_phase d).1 in
    grind (arith, poll_initialize_phase_lem d r, after_initialize-RoundOpen e (left - 1))

display_off_round-RoundOpen :
    (d : Driver) (left : ℕ) → Rolling d → RoundOpen (display_off_round d left)
unfolding display_off_round
display_off_round-RoundOpen d left r = grind (
  arith, send_command-Keeps, invalidate_modeled_panel_power-Keeps, mark_control_state_dirty-Keeps,
  fail_operation-Ended, finish_operation-Ended,
)

display_on_round-RoundOpen :
    (d : Driver) (left : ℕ) → Rolling d → RoundOpen (display_on_round d left)
unfolding display_on_round
display_on_round-RoundOpen d left r = grind (
  arith, send_command-Keeps, invalidate_modeled_panel_power-Keeps, mark_control_state_dirty-Keeps,
  fail_operation-Ended, finish_operation-Ended,
)

charge_pump_off_round-RoundOpen :
    (d : Driver) (left : ℕ) → Rolling d → RoundOpen (charge_pump_off_round d left)
unfolding charge_pump_off_round
charge_pump_off_round-RoundOpen d left r = grind (
  arith, send_command2-Keeps, mark_control_state_dirty-Keeps, fail_operation-Ended,
  finish_operation-Ended,
)

scroll_deactivate_round-RoundOpen :
    (d : Driver) (left : ℕ) → Rolling d → RoundOpen (scroll_deactivate_round d left)
unfolding scroll_deactivate_round
scroll_deactivate_round-RoundOpen d left r = grind (
  arith, send_command-Keeps, mark_control_state_dirty-Keeps, fail_operation-Ended,
  on_scroll_deactivated-Keeps,
)

scroll_configure_round-RoundOpen :
    (d : Driver) (left : ℕ) → Rolling d → RoundOpen (scroll_configure_round d left)
unfolding scroll_configure_round
scroll_configure_round-RoundOpen d left r =
    grind (arith, scroll_setup-Keeps, mark_control_state_dirty-Keeps, fail_operation-Ended)

scroll_activate_round-RoundOpen :
    (d : Driver) (left : ℕ) → Rolling d → RoundOpen (scroll_activate_round d left)
unfolding scroll_activate_round
scroll_activate_round-RoundOpen d left r = grind (
  arith, send_command-Keeps, mark_control_state_dirty-Keeps, fail_operation-Ended,
  finish_operation-Ended,
)

idle_round-RoundOpen : (d : Driver) (left : ℕ) → Rolling d → RoundOpen (idle_round d left)
unfolding idle_round
idle_round-RoundOpen d left r = grind (arith, fail_operation-Ended, finish_operation-Ended)

flush_round-RoundOpen :
    (d : Driver) (now left budget : ℕ) → Rolling d → RoundOpen (flush_round d now left budget)
unfolding flush_round poll_flush_phase sync_operation_from_flush
flush_round-RoundOpen d now left budget r = grind (
  arith,
  poll_flush_internal-Keeps d now left budget,
  flush_phase_lem,
  fail_operation-Ended,
  finish_operation-Ended,
)

pub operation_round-RoundOpen :
    (p : OperationPhase) (d : Driver) (now left budget : ℕ)
    → is_phase p OperationPhase.display_on_delay ≡ false
    → is_phase p OperationPhase.complete ≡ false
    → Rolling d
    → RoundOpen (operation_round p d now left budget)
unfolding operation_round
operation_round-RoundOpen OperationPhase.initialize_command d now left budget i c r =
    initialize_round-RoundOpen d left r
operation_round-RoundOpen OperationPhase.set_col_addr d now left budget i c r =
    flush_round-RoundOpen d now left budget r
operation_round-RoundOpen OperationPhase.set_page_addr d now left budget i c r =
    flush_round-RoundOpen d now left budget r
operation_round-RoundOpen OperationPhase.send_data d now left budget i c r =
    flush_round-RoundOpen d now left budget r
operation_round-RoundOpen OperationPhase.display_off d now left budget i c r =
    display_off_round-RoundOpen d left r
operation_round-RoundOpen OperationPhase.display_on d now left budget i c r =
    display_on_round-RoundOpen d left r
operation_round-RoundOpen OperationPhase.charge_pump_off d now left budget i c r =
    charge_pump_off_round-RoundOpen d left r
operation_round-RoundOpen OperationPhase.scroll_deactivate d now left budget i c r =
    scroll_deactivate_round-RoundOpen d left r
operation_round-RoundOpen OperationPhase.scroll_configure d now left budget i c r =
    scroll_configure_round-RoundOpen d left r
operation_round-RoundOpen OperationPhase.scroll_activate d now left budget i c r =
    scroll_activate_round-RoundOpen d left r
operation_round-RoundOpen OperationPhase.idle d now left budget i c r =
    idle_round-RoundOpen d left r
operation_round-RoundOpen OperationPhase.display_on_delay d now left budget i c r =
    absurd (ground arith)
operation_round-RoundOpen OperationPhase.complete d now left budget i c r = absurd (ground arith)
