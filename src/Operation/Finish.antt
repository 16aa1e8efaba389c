-- ===== src/Operation/Finish.antt =====
-- _syncOperationFromFlush, _finishOperation, _failOperation and _terminateOperation.
use ssd.Common.{Bool, true, false, ◌==◌, not, ◌&&◌, ◌||◌, if◌then◌else◌}
use ssd.Status.{Status, success}
use ssd.Driver.{
  Driver, OperationKind, OperationPhase, OperationProgress, OperationState, EffectState, FlushState,
  is_kind, is_phase, operation_active, is_flushing,
}
use ssd.Frame.Geometry.{is_page_buffer_mode}
use ssd.Frame.Dirty.{mark_all_dirty}
use ssd.Health.{update_health, is_done}
use ssd.Power.{invalidate_modeled_panel_power}

-- Writes to `_operation`.
abbrev pub with_progress : Driver → OperationProgress → Driver
with_progress d p = record d { operation = record (d.operation) { progress = p } }

abbrev pub kind_of : Driver → OperationKind
kind_of d = d.operation.progress.kind

-- The phase that mirrors the state of the flush job; other states leave it alone.
unfoldable pub flush_phase : FlushState → OperationPhase → OperationPhase
flush_phase FlushState.set_col_addr p = OperationPhase.set_col_addr
flush_phase FlushState.set_page_addr p = OperationPhase.set_page_addr
flush_phase FlushState.send_data p = OperationPhase.send_data
flush_phase _ p = p

unfoldable pub sync_operation_from_flush : Driver → Driver
sync_operation_from_flush d = with_progress d (record p {
  current_page = d.flush.page;
  current_column = d.flush.col;
  bytes_completed = d.flush.bytes_completed;
  data_chunk_count = d.flush.data_chunk_count;
  effect =
      if not (d.flush.transaction_count == 0) && operation_active d
      then EffectState.partial
      else p.effect;
  phase = flush_phase d.flush.state p.phase;
})
  where
    p : OperationProgress
    p = d.operation.progress

-- The terminal snapshot, with the result ready and the transport timeout restored.
abbrev pub settle : Driver → OperationState → EffectState → Status → Driver
settle d state effect status = record d {
  operation = record (d.operation) {
    progress = record (d.operation.progress) {
      phase = OperationPhase.complete;
      state = state;
      effect = effect;
      power = d.panel.panel_power_state;
      status = status;
    };
    result_ready = true;
  };
  binding = record (d.binding) { transport_timeout_ms = d.config.i2c_timeout_ms };
}

abbrev pub is_flush_kind : OperationKind → Bool
is_flush_kind k = is_kind k OperationKind.flush || is_kind k OperationKind.resync

unfoldable pub finish_operation : Driver → Driver
finish_operation d =
    let d1 = settle d OperationState.succeeded EffectState.confirmed success in
    let d2 =
      if not (d1.operation.progress.transaction_count == 0) then update_health d1 success else d1 in
    if is_flush_kind (kind_of d2)
    then record d2 { flush = record (d2.flush) { accounted = true } }
    else d2

unfoldable pub is_flush_phase : OperationPhase → Bool
is_flush_phase p =
    is_phase p OperationPhase.set_col_addr
    || is_phase p OperationPhase.set_page_addr
    || is_phase p OperationPhase.send_data

-- What a failed operation does to its flush job.
unfoldable pub abandon_flush : Driver → Status → Driver
abandon_flush d status =
    let phase = d.operation.progress.phase in
    if is_flush_kind (kind_of d) && is_flush_phase phase
    then (let d1 =
          if is_flushing d && not d.dirty.gddram_synchronized && not (is_page_buffer_mode d)
          then mark_all_dirty d
          else d in
        record d1 {
          flush = record (d1.flush) {
            error = status;
            state = FlushState.error;
            started = false;
            accounted = true;
          };
        })
    else if is_kind (kind_of d) OperationKind.resync
        && is_done d.flush.state
        && (is_phase phase OperationPhase.display_on
            || is_phase phase OperationPhase.display_on_delay)
    then record d { flush = record (d.flush) { accounted = true } }
    else d

unfoldable pub is_cancelled : OperationState → Bool
is_cancelled OperationState.cancelled = true
is_cancelled _ = false

unfoldable pub fail_operation : Driver → Status → EffectState → OperationState → Bool → Driver
fail_operation d status effect state publish_health =
    let d1 = settle (abandon_flush d status) state effect status in
    if is_cancelled state
    then d1
    else let d2 = record d1 { binding = record (d1.binding) { last_error = status } } in
      if publish_health && not (d2.operation.progress.transaction_count == 0)
      then update_health d2 status
      else d2

-- The defaults of the last two arguments.
abbrev pub failed : Driver → Status → EffectState → Driver
failed d status effect = fail_operation d status effect OperationState.failed true

unfoldable pub is_control_sequence : OperationKind → Bool
is_control_sequence k =
    is_kind k OperationKind.initialize
    || is_kind k OperationKind.resync
    || is_kind k OperationKind.wake
    || is_kind k OperationKind.shutdown
    || is_kind k OperationKind.horizontal_scroll
    || is_kind k OperationKind.vertical_scroll

unfoldable pub power_becomes_unknown : OperationKind → Bool
power_becomes_unknown k =
    is_kind k OperationKind.initialize
    || is_kind k OperationKind.resync
    || is_kind k OperationKind.wake

-- An interrupted control sequence leaves the controls unknown.
unfoldable pub interrupt_controls : Driver → Status → Driver
interrupt_controls d status =
    let k = kind_of d in
    if is_control_sequence k && not (d.operation.progress.transaction_count == 0)
    then (let d1 = record d {
      panel = record (d.panel) { control_state_dirty = true; control_state_error = status };
    } in
        let d2 = if power_becomes_unknown k then invalidate_modeled_panel_power d1 else d1 in
        if is_kind k OperationKind.initialize || is_kind k OperationKind.resync
        then record d2 { dirty = record (d2.dirty) { gddram_synchronized = false } }
        else d2)
    else d

unfoldable pub terminate_operation : Driver → Status → OperationState → Driver
terminate_operation d status state =
    let e = interrupt_controls d status in
    fail_operation e status
      (if e.operation.progress.transaction_count == 0
        then EffectState.none
        else EffectState.partial)
      state true
