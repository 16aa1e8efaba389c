-- ===== src/Operation/Result.antt =====
-- cancelOperation, takeOperationResult and invalidatePanelState of src/SSD1315.cpp.
pub mod Invalidate
pub mod Once
use ssd.Common.{true, false, Option, none, some, not, ◌||◌, if◌then◌else◌}
use ssd.Status.{Status, Err, success, error}
use ssd.Driver.{
  Driver, OperationProgress, OperationState, FlushState, operation_active, is_flushing, no_progress,
}
use ssd.Health.{settle_page_flush}
use ssd.Power.{invalidate_modeled_panel_power}
use ssd.Operation.Finish.{terminate_operation}

unfoldable pub cancel_operation : Driver → Status × Driver
cancel_operation d =
    if not (operation_active d)
    then (error Err.state_error, d)
    else (success, terminate_operation d (error Err.cancelled) OperationState.cancelled)

-- The result goes out through `out`, which is left alone on an error.
unfoldable pub take_operation_result : Driver → Status × Option OperationProgress × Driver
take_operation_result d =
    if not d.operation.result_ready || operation_active d
    then (error Err.result_not_available, none, d)
    else (
      success,
      some d.operation.progress,
      record d {
        operation = record (d.operation) { result_ready = false; progress = no_progress };
      },
    )

-- A running flush is given up, without a health outcome.
unfoldable pub drop_flush : Driver → Driver
drop_flush d = record d {
  flush = record (d.flush) {
    error = error Err.cancelled;
    state = FlushState.error;
    started = false;
    accounted = true;
  };
  binding = record (d.binding) { last_error = error Err.cancelled };
}

unfoldable pub invalidate_panel_state : Driver → Driver
invalidate_panel_state d =
    let d1 = invalidate_modeled_panel_power d in
    let d2 =
      if operation_active d1
      then (cancel_operation d1).1
      else if is_flushing d1
      then drop_flush d1
      else d1 in
    let d3 = settle_page_flush d2 in
    record d3 {
      paging = record (d3.paging) { in_page_iteration = false };
      panel = record (d3.panel) {
        control_state_dirty = true;
        control_state_error = error Err.control_state_unknown;
      };
      dirty = record (d3.dirty) { gddram_synchronized = false };
    }
