-- ===== src/Driver/Reset.antt =====
-- SSD1315::_resetRuntimeState of src/SSD1315.cpp, and detach and end, which only call it.
use ssd.Common.{true, false, [], none, replicate}
use ssd.Status.{DriverState, PanelPowerState, success}
use ssd.Command.{frames_5}
use ssd.Config.{default_config, max_height, max_pages}
use ssd.Driver.Types.{
  OperationKind, OperationPhase, OperationState, EffectState, FlushState, PowerState,
  OperationOptions, OperationProgress, Bus, Binding, Panel, Dirty, FlushJob, Operation, Paging,
  Health, Driver,
}

-- OperationOptions{}
abbrev pub no_options : OperationOptions
no_options = record { request_id = 0; use_deadline = false; deadline_ms = 0 }

-- OperationProgress{}
abbrev pub no_progress : OperationProgress
no_progress = record {
  request_id = 0;
  kind = OperationKind.none;
  phase = OperationPhase.idle;
  state = OperationState.idle;
  effect = EffectState.none;
  power = PanelPowerState.unknown;
  current_page = 0;
  current_column = 0;
  bytes_completed = 0;
  data_chunk_count = 0;
  transaction_count = 0;
  status = success;
}

abbrev pub reset_binding : Binding
reset_binding = record {
  attached = false;
  initialized = false;
  buffer = none;
  owns_buffer = false;
  total_pages = 0;
  last_error = success;
  transport_timeout_ms = default_config.i2c_timeout_ms;
}

abbrev pub reset_panel : Panel
reset_panel = record {
  sleeping = true;
  all_pixels_on = false;
  scroll_active = false;
  panel_power_state = PanelPowerState.unknown;
  power_state = PowerState.off;
  power_on_ms = 0;
  power_on_delay_started = false;
  vertical_scroll_rows = max_height;
  control_state_dirty = false;
  control_state_error = success;
}

abbrev pub reset_dirty : Dirty
reset_dirty = record {
  pages = 0;
  min_col = replicate max_pages 0xFF;
  max_col = replicate max_pages 0;
  generation = replicate max_pages 0;
  gddram_synchronized = false;
}

abbrev pub reset_flush : FlushJob
reset_flush = record {
  state = FlushState.idle;
  page = 0;
  col = 0;
  end_page = 0;
  min_col = 0;
  max_col = 0;
  page_generation = 0;
  start_ms = 0;
  started = false;
  accounted = false;
  bytes_completed = 0;
  data_chunk_count = 0;
  transaction_count = 0;
  error = success;
}

abbrev pub reset_operation : Operation
reset_operation = record {
  options = no_options;
  progress = no_progress;
  result_ready = false;
  last_request_id = 0;
  init_step = 0;
  delay_start_ms = 0;
  delay_started = false;
  scroll_left = false;
  scroll_start_page = 0;
  scroll_end_page = 0;
  scroll_speed = frames_5;
  scroll_vertical_offset = 0;
  compat_request_id = 0x8000_0000;
}

abbrev pub reset_paging : Paging
reset_paging = record {
  user_page_count = 1;
  active_user_page = 0;
  current_buffer_page = 0;
  in_page_iteration = false;
}

abbrev pub reset_health : Health
reset_health = record {
  driver_state = DriverState.uninit;
  last_ok_ms = 0;
  last_error_ms = 0;
  consecutive_failures = 0;
  total_failures = 0;
  total_success = 0;
}

-- Everything but what the outside has seen. A buffer of the driver's own is given back.
unfoldable pub reset_runtime_state : Driver → Driver
reset_runtime_state d = record {
  config = default_config;
  bus = d.bus;
  binding = reset_binding;
  panel = reset_panel;
  dirty = reset_dirty;
  flush = reset_flush;
  operation = reset_operation;
  paging = reset_paging;
  health = reset_health;
}

abbrev no_calls : Bus
no_calls = record { sent = []; calls = 0; clock_reads = 0 }

-- The driver as constructed.
unfoldable pub constructed : Driver
constructed = record {
  config = default_config;
  bus = no_calls;
  binding = reset_binding;
  panel = reset_panel;
  dirty = reset_dirty;
  flush = reset_flush;
  operation = reset_operation;
  paging = reset_paging;
  health = reset_health;
}

unfoldable pub detach : Driver → Driver
unfolding reset_runtime_state
detach d = reset_runtime_state d
