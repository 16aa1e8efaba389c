-- ===== src/Operation/Start.antt =====
-- _startOperation and its callers: startInitialize, startFlush, startSleep, startWake,
-- startResync, startShutdown and the scroll operations.
pub mod Admission
use ssd.Common.{ℕ, Bool, false, ltb, leb, ◌==◌, not, ◌&&◌, ◌||◌, if◌then◌else◌}
use ssd.Status.{Status, Err, PanelPowerState, success, error, is_ok}
use ssd.Command.{frames_2}
use ssd.Config.{max_width}
use ssd.Driver.{
  Driver, OperationKind, OperationPhase, OperationState, OperationOptions, is_kind,
  operation_active, is_flushing, no_progress,
}
use ssd.Frame.Geometry.{is_page_buffer_mode}
use ssd.Frame.Dirty.{is_dirty}
use ssd.Health.{settle_page_flush}
use ssd.Power.{is_power}
use ssd.Flush.Request.{request_flush_internal}
use ssd.Operation.Finish.{with_progress, sync_operation_from_flush}

abbrev pub is_scroll_kind : OperationKind → Bool
is_scroll_kind k =
    is_kind k OperationKind.horizontal_scroll || is_kind k OperationKind.vertical_scroll

abbrev pub is_wake : OperationKind → Bool
is_wake k = is_kind k OperationKind.wake

abbrev pub is_flush : OperationKind → Bool
is_flush k = is_kind k OperationKind.flush

-- The second half of the guards: what the kind asks of the panel.
unfoldable pub panel_admission : Driver → OperationKind → Status
panel_admission d k =
    if (is_flush k || is_wake k || is_scroll_kind k) && d.panel.control_state_dirty
    then error Err.control_state_unknown
    else if is_wake k && is_power power PanelPowerState.unknown
    then error Err.control_state_unknown
    else if is_wake k && (is_dirty d || not d.dirty.gddram_synchronized)
    then error Err.state_error
    else if is_flush k
        && not (is_power power PanelPowerState.on)
        && not (is_power power PanelPowerState.off)
    then error Err.panel_not_ready
    else if is_wake k && not (is_power power PanelPowerState.off)
    then error Err.state_error
    else success
  where
    power : PanelPowerState
    power = d.panel.panel_power_state

-- The guards of `_startOperation`, before anything changes.
unfoldable pub admission : Driver → OperationKind → OperationOptions → Status
admission d k options =
    if not d.binding.attached
    then error Err.not_initialized
    else if is_kind k OperationKind.resync && is_page_buffer_mode d
    then error Err.unsupported
    else if operation_active d || d.operation.result_ready
    then error Err.busy
    else if is_flushing d
    then error Err.busy
    else if options.request_id == 0 || options.request_id == d.operation.last_request_id
    then error Err.invalid_config
    else if d.paging.in_page_iteration && is_scroll_kind k
    then error Err.busy
    else if not (is_kind k OperationKind.initialize)
        && not (is_kind k OperationKind.resync)
        && not (is_kind k OperationKind.shutdown)
        && not d.binding.initialized
    then error Err.not_initialized
    else panel_admission d k

-- The operation as admitted, in phase idle.
unfoldable pub admit : Driver → OperationKind → OperationOptions → Driver
admit d k options = record d {
  operation = record (d.operation) {
    options = options;
    progress = record no_progress {
      request_id = options.request_id;
      kind = k;
      state = OperationState.active;
      power = d.panel.panel_power_state;
      status = error Err.in_progress;
    };
    result_ready = false;
    last_request_id = options.request_id;
    delay_started = false;
    init_step = 0;
  };
}

-- `_operation = OperationProgress{}; _lastOperationRequestId = priorRequestId;`
unfoldable pub withdraw : Driver → ℕ → Driver
withdraw d prior = record d {
  operation = record (d.operation) { progress = no_progress; last_request_id = prior };
}

abbrev pub in_phase : Driver → OperationPhase → Driver
in_phase d p = with_progress d (record (d.operation.progress) { phase = p })

-- The `switch` on the kind. The second argument is the request that was admitted before.
unfoldable pub enter : Driver → ℕ → OperationKind → Status × Driver
enter d prior k = elim k [
  | OperationKind.none ↦ (error Err.invalid_config, withdraw d prior)
  | OperationKind.initialize ↦ (success, in_phase d OperationPhase.initialize_command)
  | OperationKind.resync ↦ (success, in_phase d OperationPhase.initialize_command)
  | OperationKind.flush ↦
      let (st, e) = request_flush_internal d in
      if not (is_ok st) then (st, withdraw e prior) else (success, sync_operation_from_flush e)
  | OperationKind.sleep ↦ (success, in_phase d OperationPhase.display_off)
  | OperationKind.shutdown ↦ (success, in_phase d OperationPhase.display_off)
  | OperationKind.horizontal_scroll ↦ (success, in_phase d OperationPhase.scroll_deactivate)
  | OperationKind.vertical_scroll ↦ (success, in_phase d OperationPhase.scroll_deactivate)
  | OperationKind.wake ↦ (success, in_phase d OperationPhase.display_on)
]

unfoldable pub start_operation : Driver → OperationKind → OperationOptions → Status × Driver
start_operation d k options =
    let st = admission d k options in
    if not (is_ok st)
    then (st, d)
    else let d1 = settle_page_flush d in enter (admit d1 k options) d1.operation.last_request_id k

-- startInitialize, startFlush, startSleep, startWake, startResync and startShutdown.
abbrev pub start_initialize : Driver → OperationOptions → Status × Driver
start_initialize d o = start_operation d OperationKind.initialize o

abbrev pub start_flush : Driver → OperationOptions → Status × Driver
start_flush d o = start_operation d OperationKind.flush o

abbrev pub start_sleep : Driver → OperationOptions → Status × Driver
start_sleep d o = start_operation d OperationKind.sleep o

abbrev pub start_wake : Driver → OperationOptions → Status × Driver
start_wake d o = start_operation d OperationKind.wake o

abbrev pub start_resync : Driver → OperationOptions → Status × Driver
start_resync d o = start_operation d OperationKind.resync o

abbrev pub start_shutdown : Driver → OperationOptions → Status × Driver
start_shutdown d o = start_operation d OperationKind.shutdown o

unfoldable pub is_valid_scroll_speed : ℕ → Bool
is_valid_scroll_speed speed = leb speed frames_2

unfoldable pub validate_horizontal_scroll : Driver → ℕ → ℕ → ℕ → Status
validate_horizontal_scroll d start_page end_page speed =
    if not (d.config.width == max_width)
    then error Err.unsupported
    else if ltb end_page start_page || leb d.binding.total_pages end_page
    then error Err.invalid_config
    else if not (is_valid_scroll_speed speed)
    then error Err.invalid_config
    else if ltb d.config.max_write_bytes 8
    then error Err.buffer_overflow
    else success

unfoldable pub validate_vertical_scroll : Driver → ℕ → ℕ → ℕ → ℕ → Status
validate_vertical_scroll d start_page end_page speed vertical_offset =
    if not (d.config.width == max_width)
    then error Err.unsupported
    else if ltb end_page start_page || leb d.binding.total_pages end_page
    then error Err.invalid_config
    else if not (is_valid_scroll_speed speed)
    then error Err.invalid_config
    else if ltb 63 vertical_offset
    then error Err.invalid_config
    else if d.panel.vertical_scroll_rows == 0 || leb d.panel.vertical_scroll_rows vertical_offset
    then error Err.invalid_config
    else if ltb d.config.max_write_bytes 9
    then error Err.buffer_overflow
    else success

unfoldable pub set_scroll : Driver → Bool → ℕ → ℕ → ℕ → ℕ → Driver
set_scroll d left start_page end_page speed vertical_offset = record d {
  operation = record (d.operation) {
    scroll_left = left;
    scroll_start_page = start_page;
    scroll_end_page = end_page;
    scroll_speed = speed;
    scroll_vertical_offset = vertical_offset;
  };
}

unfoldable pub start_horizontal_scroll_operation :
    Driver → OperationOptions → Bool → ℕ → ℕ → ℕ → Status × Driver
start_horizontal_scroll_operation d options left start_page end_page speed =
    if operation_active d || d.operation.result_ready || is_flushing d
    then (error Err.busy, d)
    else if not d.binding.initialized
    then (error Err.not_initialized, d)
    else let st = validate_horizontal_scroll d start_page end_page speed in
      if not (is_ok st)
      then (st, d)
      else let (st', e) = start_operation d OperationKind.horizontal_scroll options in
        if not (is_ok st')
        then (st', e)
        else (success, set_scroll e left start_page end_page speed 0)

unfoldable pub start_vertical_scroll_operation :
    Driver → OperationOptions → Bool → ℕ → ℕ → ℕ → ℕ → Status × Driver
start_vertical_scroll_operation d options left start_page end_page speed vertical_offset =
    if operation_active d || d.operation.result_ready || is_flushing d
    then (error Err.busy, d)
    else if not d.binding.initialized
    then (error Err.not_initialized, d)
    else let st = validate_vertical_scroll d start_page end_page speed vertical_offset in
      if not (is_ok st)
      then (st, d)
      else let (st', e) = start_operation d OperationKind.vertical_scroll options in
        if not (is_ok st')
        then (st', e)
        else (success, set_scroll e left start_page end_page speed vertical_offset)
