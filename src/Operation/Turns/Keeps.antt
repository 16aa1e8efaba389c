-- ===== src/Operation/Turns/Keeps.antt =====
-- The parts of src/SSD1315.cpp that leave the operation alone, and those that end it.
use ssd.Common.{ℕ, Bool, true, false, List, ◌≡◌, arith, not, if◌then◌else◌}
use ssd.Status.{Status, Err, success, error, is_in_progress, map_transport_result, TransportResult}
use ssd.Driver.{Driver, OperationPhase, OperationState, EffectState, is_phase, operation_active}
use ssd.Health.{settle_page_flush}
use ssd.Power.{mark_control_state_dirty, invalidate_modeled_panel_power}
use ssd.Transport.{
  transact, i2c_write_raw, i2c_write_tracked, send_command, send_command2, send_command3,
  send_command_list,
}
use ssd.Operation.Finish.{
  settle, finish_operation, abandon_flush, fail_operation, interrupt_controls, terminate_operation,
}
use ssd.Operation.Init.{send_late_step, send_init_step}
use ssd.Operation.Phases.{on_scroll_deactivated, scroll_setup}
use ssd.Traffic.Quiet.{update_health-Bookkept, settle_page_flush-Still, mark_all_dirty-OnlyDirty}
use ssd.Traffic.Flush.{i2c_write_raw-OneFrame}

abbrev pub Keeps : Driver → Driver → Type 0
Keeps d e = e.operation ≡ d.operation

pub mark_control_state_dirty-Keeps :
    (d : Driver) (st : Status) → Keeps d (mark_control_state_dirty d st)
unfolding mark_control_state_dirty
mark_control_state_dirty-Keeps d st = ground arith

pub invalidate_modeled_panel_power-Keeps : (d : Driver) → Keeps d (invalidate_modeled_panel_power d)
unfolding invalidate_modeled_panel_power
invalidate_modeled_panel_power-Keeps d = ground arith

pub i2c_write_tracked-Keeps : (d : Driver) (bytes : List ℕ) → Keeps d (i2c_write_tracked d bytes).1
unfolding i2c_write_tracked
i2c_write_tracked-Keeps d bytes =
    let d1 = if not (operation_active d) then settle_page_flush d else d in
    let (st, d2) = i2c_write_raw d1 bytes in
    ground (
      arith,
      settle_page_flush-Still d,
      i2c_write_raw-OneFrame d1 bytes,
      update_health-Bookkept d2 st,
    )

pub send_command-Keeps : (d : Driver) (c : ℕ) → Keeps d (send_command d c).1
unfolding send_command
send_command-Keeps d c = i2c_write_tracked-Keeps d _

pub send_command2-Keeps : (d : Driver) (c a : ℕ) → Keeps d (send_command2 d c a).1
unfolding send_command2
send_command2-Keeps d c a = i2c_write_tracked-Keeps d _

pub send_command3-Keeps : (d : Driver) (c a b : ℕ) → Keeps d (send_command3 d c a b).1
unfolding send_command3
send_command3-Keeps d c a b = i2c_write_tracked-Keeps d _

pub send_command_list-Keeps : (d : Driver) (cs : List ℕ) → Keeps d (send_command_list d cs).1
unfolding send_command_list
send_command_list-Keeps d cs = grind (arith, i2c_write_tracked-Keeps)

send_late_step-Keeps : (d : Driver) (n : ℕ) → Keeps d (send_late_step d n).1
unfolding send_late_step
send_late_step-Keeps d n =
    grind (arith, send_command2-Keeps, send_command3-Keeps, send_command_list-Keeps)

pub send_init_step-Keeps : (d : Driver) (n : ℕ) → Keeps d (send_init_step d n).1
unfolding send_init_step
send_init_step-Keeps d n =
    grind (arith, send_command-Keeps, send_command2-Keeps, send_late_step-Keeps)

pub scroll_setup-Keeps : (d : Driver) → Keeps d (scroll_setup d).1
unfolding scroll_setup
scroll_setup-Keeps d = grind (arith, send_command_list-Keeps)

pub on_scroll_deactivated-Keeps : (d : Driver) → Keeps d (on_scroll_deactivated d)
unfolding on_scroll_deactivated
on_scroll_deactivated-Keeps d = grind (arith, mark_all_dirty-OnlyDirty)

-- An operation runs, with no result yet: its status is `in_progress`, and its phase not the last.
pub record Running (d : Driver) : Type 0 where
  pub active : operation_active d ≡ true
  pub unread : d.operation.result_ready ≡ false
  pub waiting : d.operation.progress.status ≡ error Err.in_progress
  pub unfinished : is_phase d.operation.progress.phase OperationPhase.complete ≡ false

-- An operation has ended, and its result waits.
pub record Ended (d : Driver) : Type 0 where
  pub inactive : operation_active d ≡ false
  pub ready : d.operation.result_ready ≡ true

pub finish_operation-Ended : (d : Driver) → Ended (finish_operation d)
unfolding finish_operation
finish_operation-Ended d = ground (
  arith,
  update_health-Bookkept (settle d OperationState.succeeded EffectState.confirmed success) success,
)

abandon_flush-Keeps : (d : Driver) (st : Status) → Keeps d (abandon_flush d st)
unfolding abandon_flush
abandon_flush-Keeps d st = ground (arith, mark_all_dirty-OnlyDirty d)

-- The state that a failure leaves is a terminal one.
abbrev pub is_terminal : OperationState → Bool
is_terminal OperationState.idle = false
is_terminal OperationState.active = false
is_terminal _ = true

pub fail_operation-Ended :
    (d : Driver) (st : Status) (effect : EffectState) (state : OperationState) (publish : Bool)
    → is_terminal state ≡ true
    → let e = fail_operation d st effect state publish in
      Ended e
      × (e.operation.progress.state ≡ state)
      × (e.operation.progress.status ≡ st)
      × (e.operation.progress.effect ≡ effect)
unfolding fail_operation
fail_operation-Ended d st effect state publish h =
    let d1 = settle (abandon_flush d st) state effect st in
    ground (
      arith,
      abandon_flush-Keeps d st,
      update_health-Bookkept (record d1 { binding = record (d1.binding) { last_error = st } }) st,
    )

interrupt_controls-Keeps : (d : Driver) (st : Status) → Keeps d (interrupt_controls d st)
unfolding interrupt_controls invalidate_modeled_panel_power
interrupt_controls-Keeps d st = ground arith

pub terminate_operation-Ended :
    (d : Driver) (st : Status) (state : OperationState)
    → is_terminal state ≡ true
    → let e = terminate_operation d st state in
      Ended e × (e.operation.progress.state ≡ state) × (e.operation.progress.status ≡ st)
unfolding terminate_operation
terminate_operation-Ended d st state h =
    grind (arith, interrupt_controls-Keeps d st, fail_operation-Ended)

-- A write has an outcome.
map_transport_result_definite :
    (r : TransportResult) → is_in_progress (map_transport_result r) ≡ false
unfolding map_transport_result
map_transport_result_definite r = ground arith

pub i2c_write_raw_definite :
    (d : Driver) (bytes : List ℕ) → is_in_progress (i2c_write_raw d bytes).0 ≡ false
unfolding i2c_write_raw transact
i2c_write_raw_definite d bytes = grind (arith, map_transport_result_definite)

i2c_write_tracked_definite :
    (d : Driver) (bytes : List ℕ) → is_in_progress (i2c_write_tracked d bytes).0 ≡ false
unfolding i2c_write_tracked
i2c_write_tracked_definite d bytes = grind (arith, i2c_write_raw_definite)

pub send_init_step_definite : (d : Driver) (n : ℕ) → is_in_progress (send_init_step d n).0 ≡ false
unfolding send_init_step send_late_step send_command send_command2 send_command3 send_command_list
send_init_step_definite d n = grind (arith, i2c_write_tracked_definite)
