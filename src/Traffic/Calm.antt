-- ===== src/Traffic/Calm.antt =====
-- The parts of an operation of src/SSD1315.cpp that hand nothing to the write callback, and its
-- commands, which hand over one frame at most.
use ssd.Common.{ℕ, Bool, List, ◌+◌, ◌≤◌, not, if◌then◌else◌, arith, length}
use ssd.Status.{Status, success}
use ssd.Driver.{Driver, OperationState, EffectState, operation_active}
use ssd.Health.{settle_page_flush}
use ssd.Power.{mark_control_state_dirty, invalidate_modeled_panel_power}
use ssd.Transport.{
  i2c_write_raw, i2c_write_tracked, send_command, send_command2, send_command3, send_command_list,
}
use ssd.Operation.Finish.{
  sync_operation_from_flush, finish_operation, abandon_flush, fail_operation, interrupt_controls,
  terminate_operation, settle,
}
use ssd.Operation.Init.{send_late_step, send_init_step}
use ssd.Traffic.Quiet.{update_health-Bookkept, mark_all_dirty-OnlyDirty, settle_page_flush-Still}
use ssd.Traffic.Flush.{i2c_write_raw-OneFrame}

-- At most `n` frames more, and the flush counter has not grown.
pub record Sends (n : ℕ) (d e : Driver) : Type 0 where
  pub sent : length e.bus.sent ≤ length d.bus.sent + n
  pub count : e.flush.transaction_count ≤ d.flush.transaction_count

pub mark_control_state_dirty-Sends :
    (d : Driver) (st : Status) → Sends 0 d (mark_control_state_dirty d st)
unfolding mark_control_state_dirty
mark_control_state_dirty-Sends d st = ground arith

pub invalidate_modeled_panel_power-Sends :
    (d : Driver) → Sends 0 d (invalidate_modeled_panel_power d)
unfolding invalidate_modeled_panel_power
invalidate_modeled_panel_power-Sends d = ground arith

pub sync_operation_from_flush-Sends : (d : Driver) → Sends 0 d (sync_operation_from_flush d)
unfolding sync_operation_from_flush
sync_operation_from_flush-Sends d = ground arith

pub finish_operation-Sends : (d : Driver) → Sends 0 d (finish_operation d)
unfolding finish_operation
finish_operation-Sends d = ground (
  arith,
  update_health-Bookkept (settle d OperationState.succeeded EffectState.confirmed success) success,
)

abandon_flush-Sends : (d : Driver) (st : Status) → Sends 0 d (abandon_flush d st)
unfolding abandon_flush
abandon_flush-Sends d st = ground (arith, mark_all_dirty-OnlyDirty d)

pub fail_operation-Sends :
    (d : Driver) (st : Status) (effect : EffectState) (state : OperationState) (publish : Bool)
    → Sends 0 d (fail_operation d st effect state publish)
unfolding fail_operation
fail_operation-Sends d st effect state publish =
    let d1 = settle (abandon_flush d st) state effect st in
    ground (
      arith,
      abandon_flush-Sends d st,
      update_health-Bookkept (record d1 { binding = record (d1.binding) { last_error = st } }) st,
    )

interrupt_controls-Sends : (d : Driver) (st : Status) → Sends 0 d (interrupt_controls d st)
unfolding interrupt_controls invalidate_modeled_panel_power
interrupt_controls-Sends d st = ground arith

pub terminate_operation-Sends :
    (d : Driver) (st : Status) (state : OperationState) → Sends 0 d (terminate_operation d st state)
unfolding terminate_operation
terminate_operation-Sends d st state =
    grind (arith, interrupt_controls-Sends d st, fail_operation-Sends)

pub i2c_write_tracked-Sends :
    (d : Driver) (bytes : List ℕ) → Sends 1 d (i2c_write_tracked d bytes).1
unfolding i2c_write_tracked
i2c_write_tracked-Sends d bytes =
    let d1 = if not (operation_active d) then settle_page_flush d else d in
    let (st, d2) = i2c_write_raw d1 bytes in
    ground (
      arith,
      settle_page_flush-Still d,
      i2c_write_raw-OneFrame d1 bytes,
      update_health-Bookkept d2 st,
    )

pub send_command-Sends : (d : Driver) (c : ℕ) → Sends 1 d (send_command d c).1
unfolding send_command
send_command-Sends d c = i2c_write_tracked-Sends d _

pub send_command2-Sends : (d : Driver) (c a : ℕ) → Sends 1 d (send_command2 d c a).1
unfolding send_command2
send_command2-Sends d c a = i2c_write_tracked-Sends d _

pub send_command3-Sends : (d : Driver) (c a b : ℕ) → Sends 1 d (send_command3 d c a b).1
unfolding send_command3
send_command3-Sends d c a b = i2c_write_tracked-Sends d _

pub send_command_list-Sends : (d : Driver) (cs : List ℕ) → Sends 1 d (send_command_list d cs).1
unfolding send_command_list
send_command_list-Sends d cs = grind (arith, i2c_write_tracked-Sends)

send_late_step-Sends : (d : Driver) (n : ℕ) → Sends 1 d (send_late_step d n).1
unfolding send_late_step
send_late_step-Sends d n =
    grind (arith, send_command2-Sends, send_command3-Sends, send_command_list-Sends)

pub send_init_step-Sends : (d : Driver) (n : ℕ) → Sends 1 d (send_init_step d n).1
unfolding send_init_step
send_init_step-Sends d n =
    grind (arith, send_command-Sends, send_command2-Sends, send_late_step-Sends)
