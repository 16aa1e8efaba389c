-- ===== src/Operation/Phases.antt =====
-- The cases of the `switch` in pollOperation of src/SSD1315.cpp: what one round does in each
-- phase. A round returns to the caller, or goes on with the transactions left.
pub mod DisplayOn
use ssd.Common.{
  ℕ, Bool, true, false, [], ◌∷◌, ◌+◌, ◌-◌, ltb, leb, ◌==◌, not, ◌&&◌, ◌||◌, u16, if◌then◌else◌,
}
use ssd.Status.{Status, Err, DriverState, PanelPowerState, success, error, is_ok, is_in_progress}
use ssd.Command
use ssd.Config.Enums.{charge_pump_off}
use ssd.Driver.{
  Driver, Operation, OperationKind, OperationPhase, OperationState, EffectState, PowerState,
  is_kind,
}
use ssd.Frame.Dirty.{is_dirty, mark_all_dirty}
use ssd.Power.{invalidate_modeled_panel_power, mark_control_state_dirty, effect_for_failure}
use ssd.Transport.{send_command, send_command2, send_command_list}
use ssd.Flush.Request.{request_flush_internal}
use ssd.Flush.Poll.{poll_flush_internal, Step, stop, next}
use ssd.Operation.Finish.{
  kind_of, sync_operation_from_flush, finish_operation, fail_operation, failed, is_flush_kind,
}
use ssd.Operation.Start.{in_phase}
use ssd.Operation.Init.{
  init_step_count, poll_initialize_phase, count_transaction, with_effect, note_power, has_prefix,
}

-- A successful end of the operation.
abbrev pub finished : Driver → Step
finished d = stop success (finish_operation d)

-- `if (transactionsLeft == 0) return Error(IN_PROGRESS, …); continue;`
abbrev pub go_on : Driver → ℕ → Step
go_on d left = if left == 0 then stop (error Err.in_progress) d else next d left

-- Behind the last command of an initialization: the operation ends, or its flush begins.
unfoldable pub after_initialize : Driver → ℕ → Step
after_initialize d left =
    if is_kind (kind_of d) OperationKind.initialize
    then finished d
    else let (st, e) = request_flush_internal d in
      if not (is_ok st)
      then stop st (failed e st EffectState.partial)
      else go_on (sync_operation_from_flush e) left

unfoldable pub initialize_round : Driver → ℕ → Step
initialize_round d left =
    if left == 0
    then stop (error Err.in_progress) d
    else let (st, e) = poll_initialize_phase d in
      if not (is_ok st) && not (is_in_progress st)
      then stop st e
      else if ltb e.operation.init_step init_step_count
      then go_on e (left - 1)
      else after_initialize e (left - 1)

-- `_pollFlushPhase`
unfoldable pub poll_flush_phase : Driver → ℕ → ℕ → ℕ → Status × Driver
poll_flush_phase d now left budget =
    let (st, e) = poll_flush_internal d now left budget in (st, sync_operation_from_flush e)

-- The transactions of a poll that took `used` of them.
abbrev pub count_used : Driver → ℕ → Driver
count_used d used = record d {
  operation = record (d.operation) {
    progress = record (d.operation.progress) {
      transaction_count = u16 (d.operation.progress.transaction_count + used);
    };
  };
}

unfoldable pub flush_round : Driver → ℕ → ℕ → ℕ → Step
flush_round d now left budget =
    if left == 0
    then stop (error Err.in_progress) d
    else let (st, d1) = poll_flush_phase d now left budget in
      let used = u16 (d1.flush.transaction_count + 65536 - d.flush.transaction_count) in
      let e = count_used d1 used in
      let left' = if leb left used then 0 else left - used in
      if is_in_progress st
      then stop st e
      else if not (is_ok st)
      then (let confirmed =
            if used == 0
            then not (e.operation.progress.transaction_count == 0)
            else ltb 1 e.operation.progress.transaction_count in
          stop st (failed e st (effect_for_failure st confirmed)))
      else if is_kind (kind_of e) OperationKind.flush
      then finished e
      else go_on (in_phase e OperationPhase.display_on) left'

abbrev pub is_shutdown : Driver → Bool
is_shutdown d = is_kind (kind_of d) OperationKind.shutdown

-- `_initialized = false; _driverState = UNINIT;`
abbrev pub uninitialize : Driver → Driver
uninitialize d = record d {
  binding = record (d.binding) { initialized = false };
  health = record (d.health) { driver_state = DriverState.uninit };
}

unfoldable pub display_off_round : Driver → ℕ → Step
display_off_round d left =
    if left == 0
    then stop (error Err.in_progress) d
    else let (st, d1) = send_command d Command.display_off in
      let d2 = count_transaction d1 in
      if not (is_ok st)
      then (let e = mark_control_state_dirty (invalidate_modeled_panel_power d2) st in
          stop st (failed e st (effect_for_failure st (has_prefix e))))
      else let e =
          with_effect
            (note_power (record d2 {
              panel = record (d2.panel) {
                panel_power_state = PanelPowerState.off;
                power_state = PowerState.off;
                sleeping = true;
              };
            }))
            EffectState.partial in
        if is_shutdown e && not (e.config.charge_pump_voltage == charge_pump_off)
        then go_on (in_phase e OperationPhase.charge_pump_off) (left - 1)
        else finished (if is_shutdown e then uninitialize e else e)

-- DISPLAY_ON was confirmed.
abbrev pub starting : Driver → Driver
starting d = record d {
  panel = record (d.panel) { sleeping = false; panel_power_state = PanelPowerState.starting };
  operation = record (d.operation) {
    delay_started = false;
    progress = record (d.operation.progress) {
      power = PanelPowerState.starting;
      effect = EffectState.partial;
      phase = OperationPhase.display_on_delay;
    };
  };
}

-- `_panelPowerState = ON; _powerState = READY;`
abbrev pub powered : Driver → Driver
powered d = record d {
  panel = record (d.panel) {
    panel_power_state = PanelPowerState.on;
    power_state = PowerState.ready;
  };
}

unfoldable pub display_on_round : Driver → ℕ → Step
display_on_round d left =
    if is_dirty d || not d.dirty.gddram_synchronized
    then stop (error Err.state_error) (
        fail_operation d (error Err.state_error)
          (if d.operation.progress.transaction_count == 0
            then EffectState.none
            else EffectState.partial)
          OperationState.failed false)
    else if left == 0
    then stop (error Err.in_progress) d
    else let (st, d1) = send_command d Command.display_on in
      let d2 = count_transaction d1 in
      if not (is_ok st)
      then (let e = mark_control_state_dirty (invalidate_modeled_panel_power d2) st in
          stop st (failed e st (effect_for_failure st (has_prefix e))))
      else if d2.config.display_on_delay_ms == 0
      then finished (powered (starting d2))
      else stop (error Err.in_progress) (starting d2)

unfoldable pub charge_pump_off_round : Driver → ℕ → Step
charge_pump_off_round d left =
    if left == 0
    then stop (error Err.in_progress) d
    else let (st, d1) = send_command2 d Command.set_charge_pump charge_pump_off in
      let d2 = count_transaction d1 in
      if not (is_ok st)
      then stop st (failed (mark_control_state_dirty d2 st) st (effect_for_failure st true))
      else let e = uninitialize d2 in
        finished (record e { panel = record (e.panel) { panel_power_state = PanelPowerState.off } })

-- The controller rotated GDDRAM while the scroll was active.
unfoldable pub on_scroll_deactivated : Driver → Driver
on_scroll_deactivated d =
    let e =
      if d.panel.scroll_active
      then mark_all_dirty (record d {
        dirty = record (d.dirty) { gddram_synchronized = false };
        paging = record (d.paging) { in_page_iteration = false };
      })
      else d in
    record e { panel = record (e.panel) { scroll_active = false } }

unfoldable pub scroll_deactivate_round : Driver → ℕ → Step
scroll_deactivate_round d left =
    if left == 0
    then stop (error Err.in_progress) d
    else let (st, d1) = send_command d Command.scroll_deactivate in
      let d2 = count_transaction d1 in
      if not (is_ok st)
      then (let e = mark_control_state_dirty d2 st in
          stop st (failed e st (effect_for_failure st (has_prefix e))))
      else go_on
          (in_phase (with_effect (on_scroll_deactivated d2) EffectState.partial)
            OperationPhase.scroll_configure)
          (left - 1)

-- The setup command of a scroll.
unfoldable pub scroll_setup : Driver → Status × Driver
scroll_setup d =
    if is_kind (kind_of d) OperationKind.horizontal_scroll
    then send_command_list d (
        (if o.scroll_left then Command.scroll_left else Command.scroll_right)
        ∷ Command.scroll_dummy
        ∷ o.scroll_start_page
        ∷ o.scroll_speed
        ∷ o.scroll_end_page
        ∷ Command.scroll_col_start
        ∷ Command.scroll_col_end
        ∷ [])
    else send_command_list d (
        (if o.scroll_left then Command.scroll_vert_left else Command.scroll_vert_right)
        ∷ Command.scroll_one_col
        ∷ o.scroll_start_page
        ∷ o.scroll_speed
        ∷ o.scroll_end_page
        ∷ o.scroll_vertical_offset
        ∷ Command.scroll_col_start
        ∷ Command.scroll_col_end
        ∷ [])
  where
    o : Operation
    o = d.operation

unfoldable pub scroll_configure_round : Driver → ℕ → Step
scroll_configure_round d left =
    if left == 0
    then stop (error Err.in_progress) d
    else if not (is_kind (kind_of d) OperationKind.horizontal_scroll)
        && not (is_kind (kind_of d) OperationKind.vertical_scroll)
    then stop (error Err.internal_error) (failed d (error Err.internal_error) EffectState.partial)
    else let (st, d1) = scroll_setup d in
      let d2 = count_transaction d1 in
      if not (is_ok st)
      then stop st (failed (mark_control_state_dirty d2 st) st (effect_for_failure st true))
      else go_on (in_phase (with_effect d2 EffectState.partial) OperationPhase.scroll_activate)
          (left - 1)

unfoldable pub scroll_activate_round : Driver → ℕ → Step
scroll_activate_round d left =
    if left == 0
    then stop (error Err.in_progress) d
    else let (st, d1) = send_command d Command.scroll_activate in
      let d2 = count_transaction d1 in
      if not (is_ok st)
      then stop st (failed (mark_control_state_dirty d2 st) st (effect_for_failure st true))
      else finished (record d2 { panel = record (d2.panel) { scroll_active = true } })

-- An active operation without a phase: a flush of nothing.
unfoldable pub idle_round : Driver → ℕ → Step
idle_round d left =
    if not (is_flush_kind (kind_of d))
    then stop (error Err.internal_error) (failed d (error Err.internal_error) EffectState.partial)
    else if is_kind (kind_of d) OperationKind.flush
    then finished d
    else next (in_phase d OperationPhase.display_on) left

-- One round of the loop.
unfoldable pub operation_round : OperationPhase → Driver → ℕ → ℕ → ℕ → Step
operation_round OperationPhase.initialize_command d now left budget = initialize_round d left
operation_round OperationPhase.set_col_addr d now left budget = flush_round d now left budget
operation_round OperationPhase.set_page_addr d now left budget = flush_round d now left budget
operation_round OperationPhase.send_data d now left budget = flush_round d now left budget
operation_round OperationPhase.display_off d now left budget = display_off_round d left
operation_round OperationPhase.display_on d now left budget = display_on_round d left
operation_round OperationPhase.display_on_delay d now left budget =
    stop (error Err.internal_error) d
operation_round OperationPhase.charge_pump_off d now left budget = charge_pump_off_round d left
operation_round OperationPhase.scroll_deactivate d now left budget = scroll_deactivate_round d left
operation_round OperationPhase.scroll_configure d now left budget = scroll_configure_round d left
operation_round OperationPhase.scroll_activate d now left budget = scroll_activate_round d left
operation_round OperationPhase.idle d now left budget = idle_round d left
operation_round OperationPhase.complete d now left budget = stop d.operation.progress.status d
