-- ===== src/Examples/Operations.antt =====
-- The theorems on operations and flushes, on a panel of 8 columns and 16 rows.
use ssd.Operation.Init.{send_init_step}
use ssd.Config.Validate.Laws.{IsUsable, validate_config_iff}
use ssd.Config.Validate.{
  validate_config, validate_panel, validate_budgets, validate_buffer, is_valid_com_pins_config,
  is_valid_charge_pump_voltage, is_valid_iref_selection, is_valid_vcomh_level,
}
use ssd.Operation.Init.Steps.{Takes, Sends, frame_of, send_init_step-Sends}
use ssd.Operation.Result.{invalidate_panel_state}
use ssd.Operation.Result.Invalidate.{Stopped, invalidate_panel_state_lem}
use ssd.Common.{true, false, none, some, u32, ◌+◌, ◌≤◌, ◌≡◌, ◌⊎◌, refl, arith, length}
use ssd.Status.{PanelPowerState, Err, error, success, is_ok}
use ssd.Driver.{OperationKind, OperationOptions, OperationState, operation_active}
use ssd.Flush.Poll.{poll_flush}
use ssd.Operation.Start.{admission, panel_admission, enter, start_operation, start_wake}
use ssd.Operation.Start.Admission.{Accepted, start_operation-Accepted}
use ssd.Operation.Poll.{operation_loop, poll_operation}
use ssd.Operation.Poll.Deadline.{Bounded, poll_operation-expired, poll_operation-deadline}
use ssd.Operation.Poll.Fuel.{operation_run, operation_loop_enough}
use ssd.Operation.Phases.{display_on_round}
use ssd.Operation.Phases.DisplayOn.{
  Refused, WakeReady, display_on_round-Refused, start_wake-WakeReady,
}
use ssd.Operation.Result.{cancel_operation, take_operation_result}
use ssd.Operation.Result.Once.{take_operation_result_once}
use ssd.Operation.Turns.Keeps.{Running, Ended}
use ssd.Operation.Turns.Rounds.{Turned}
use ssd.Operation.Turns.Polls.{poll_operation-Open, cancel_operation-Ended}
use ssd.Traffic.Flush.{data_bytes, poll_flush_bounds}
use ssd.Traffic.Operation.{poll_operation_bounds}
use ssd.Control.Refusal.{Direct, run_direct, run_direct-busy}
use ssd.Examples.{lit, dark, flushing, plain_flush, over}

flushing-Running : Running flushing
flushing-Running = record { active = refl; unread = refl; waiting = refl; unfinished = refl }

flushing-Bounded : Bounded flushing
flushing-Bounded = record { active = refl; no_delay = refl; deadline = refl }

poll_operation-Open_example :
    let (st, e) = poll_operation flushing 50 4 128 in
    Turned st e ⊎ (9 ≤ 4) × (st ≡ error Err.invalid_config) × (e ≡ flushing)
poll_operation-Open_example = poll_operation-Open flushing 50 4 128 flushing-Running

poll_operation_bounds_example :
    let (st, e) = poll_operation flushing 50 4 128 in
    (length e.bus.sent ≤ length flushing.bus.sent + 4)
    × (length e.bus.sent ≤ length flushing.bus.sent + 8)
    × ((4 ≤ 8) ⊎ (e ≡ flushing) × (st ≡ error Err.invalid_config))
poll_operation_bounds_example = poll_operation_bounds flushing 50 4 128 (omega arith)

poll_flush_bounds_example :
    let e = (poll_flush plain_flush 50 3 16).1 in
    (length e.bus.sent ≤ length plain_flush.bus.sent + 3)
    × (data_bytes e.bus.sent ≤ data_bytes plain_flush.bus.sent + 16)
poll_flush_bounds_example = poll_flush_bounds plain_flush 50 3 16 (omega arith)

abbrev request : OperationOptions
request = record { request_id = 9; use_deadline = false; deadline_ms = 0 }

sleep_accepted : is_ok (start_operation lit OperationKind.sleep request).0 ≡ true
unfolding start_operation admission panel_admission enter
sleep_accepted = refl

start_operation-Accepted_example :
    Accepted OperationKind.sleep request lit (start_operation lit OperationKind.sleep request).1
start_operation-Accepted_example =
    start_operation-Accepted lit OperationKind.sleep request sleep_accepted

wake_accepted : is_ok (start_wake dark request).0 ≡ true
unfolding start_operation admission panel_admission enter
wake_accepted = refl

start_wake-WakeReady_example : WakeReady dark
start_wake-WakeReady_example = start_wake-WakeReady dark request wake_accepted

poll_operation-expired_example :
    let (st, e) = poll_operation flushing (u32 (100 + 50)) 4 128 in
    (st ≡ error Err.timeout)
    × (length e.bus.sent ≤ length flushing.bus.sent)
    × Ended e
    × (e.operation.progress.state ≡ OperationState.timed_out)
    × (e.operation.progress.status ≡ error Err.timeout)
poll_operation-expired_example =
    poll_operation-expired flushing 50 4 128 flushing-Bounded (omega arith) (omega arith)
      (omega arith)

poll_operation-deadline_example :
    length (poll_operation flushing 50 4 128).1.bus.sent ≤ length flushing.bus.sent + 1
poll_operation-deadline_example =
    poll_operation-deadline flushing 50 4 128 flushing-Bounded (omega arith)

operation_loop_enough_example :
    operation_run 9 flushing 50 4 128 ≡ some (operation_loop 6 flushing 50 4 128)
operation_loop_enough_example = operation_loop_enough 9 flushing 50 4 128 (omega arith)

display_on_round-Refused_example :
    Refused (error Err.state_error) plain_flush (display_on_round plain_flush 4)
display_on_round-Refused_example = display_on_round-Refused plain_flush 4 refl

cancel_operation-Ended_example :
    let (st, e) = cancel_operation flushing in
    (operation_active flushing ≡ true)
      × (st ≡ success)
      × Ended e
      × (e.operation.progress.state ≡ OperationState.cancelled)
      × (e.operation.progress.status ≡ error Err.cancelled)
    ⊎ (operation_active flushing ≡ false) × (st ≡ error Err.state_error) × (e ≡ flushing)
cancel_operation-Ended_example = cancel_operation-Ended flushing

over_taken : is_ok (take_operation_result over).0 ≡ true
unfolding take_operation_result
over_taken = refl

take_operation_result_once_example :
    let (st, out, e) = take_operation_result over in
    (out ≡ some over.operation.progress)
    × (take_operation_result e ≡ (error Err.result_not_available, none, e))
take_operation_result_once_example = take_operation_result_once over over_taken

run_direct-busy_example : run_direct Direct.presence plain_flush ≡ (error Err.busy, plain_flush)
run_direct-busy_example = run_direct-busy Direct.presence plain_flush refl refl

flushing-Takes : Takes flushing
flushing-Takes = record { callback = refl; capacity = omega arith; active = refl }

config_accepted : is_ok (validate_config flushing.config).0 ≡ true
unfolding validate_config validate_panel validate_budgets validate_buffer is_valid_com_pins_config
    is_valid_charge_pump_voltage is_valid_iref_selection is_valid_vcomh_level
config_accepted = refl

flushing-IsUsable : IsUsable flushing.config
flushing-IsUsable = (validate_config_iff flushing.config).0 config_accepted

send_init_step-Sends_example :
    Sends (frame_of flushing.config 8) flushing (send_init_step flushing 8).1
send_init_step-Sends_example =
    send_init_step-Sends flushing 8 flushing-Takes flushing-IsUsable (omega arith)

invalidate_panel_state_example :
    let e = invalidate_panel_state flushing in
    (operation_active e ≡ false)
    × (e.panel.panel_power_state ≡ PanelPowerState.unknown)
    × (e.panel.control_state_dirty ≡ true)
    × (e.panel.control_state_error ≡ error Err.control_state_unknown)
    × (e.dirty.gddram_synchronized ≡ false)
    × (e.paging.in_page_iteration ≡ false)
    × (e.bus.sent ≡ flushing.bus.sent)
    × Stopped flushing e
invalidate_panel_state_example = invalidate_panel_state_lem flushing
