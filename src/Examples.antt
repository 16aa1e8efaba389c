-- ===== src/Examples.antt =====
-- Concrete drivers of a panel of 8 columns and 16 rows, on a bus that accepts every write, and the
-- theorems at work on them.
pub mod Paging
pub mod Display
pub mod Blocking
pub mod Drawing
pub mod Operations
pub mod Setup
use ssd.Common.{ℕ, true, false, some, [], ◌∷◌, replicate}
use ssd.Status.{Status, Err, DriverState, PanelPowerState, TransportCode, success, error}
use ssd.Config.{Config, I2cWriteFn, default_config}
use ssd.Driver.{
  Driver, Binding, Panel, Dirty, FlushJob, Operation, Health, PowerState, FlushState, OperationKind,
  OperationPhase, OperationState, no_progress, no_options, reset_binding, reset_panel, reset_dirty,
  reset_flush, reset_operation, reset_paging, reset_health,
}

abbrev pub accepts : I2cWriteFn
accepts address bytes timeout calls = record { code = TransportCode.ok; detail = 0 }

abbrev pub small_config : Config
small_config = record default_config {
  width = 8;
  height = 16;
  page_buffer_pages = 2;
  i2c_write = some accepts;
}

-- Attached, initialized, lit, with clean and known content.
abbrev pub lit : Driver
lit = record {
  config = small_config;
  bus = record { sent = []; calls = 0; clock_reads = 0 };
  binding = record reset_binding {
    attached = true;
    initialized = true;
    buffer = some (record { address = 4096; bytes = replicate 16 0 });
    owns_buffer = true;
    total_pages = 2;
  };
  panel = record reset_panel {
    sleeping = false;
    panel_power_state = PanelPowerState.on;
    power_state = PowerState.ready;
  };
  dirty = record reset_dirty { gddram_synchronized = true };
  flush = reset_flush;
  operation = reset_operation;
  paging = reset_paging;
  health = record reset_health { driver_state = DriverState.ready };
}

-- The same panel, off.
abbrev pub dark : Driver
dark = record lit { panel = record reset_panel { panel_power_state = PanelPowerState.off } }

-- The panel with a flush of its first page under way, as an operation with a deadline.
abbrev pub flushing : Driver
flushing = record lit {
  dirty = record reset_dirty {
    pages = 1;
    min_col = 2 ∷ replicate 7 0xFF;
    max_col = 5 ∷ replicate 7 0;
  };
  flush = record reset_flush {
    state = FlushState.set_col_addr;
    min_col = 2;
    max_col = 5;
    col = 2;
    started = true;
  };
  operation = record reset_operation {
    options = record { request_id = 7; use_deadline = true; deadline_ms = 100 };
    progress = record no_progress {
      request_id = 7;
      kind = OperationKind.flush;
      phase = OperationPhase.set_col_addr;
      state = OperationState.active;
      status = error Err.in_progress;
    };
    last_request_id = 7;
  };
}

-- The flush alone.
abbrev pub plain_flush : Driver
plain_flush = record flushing { operation = reset_operation }

-- An operation that succeeded, with its result waiting.
abbrev pub over : Driver
over = record lit {
  operation = record reset_operation {
    progress = record no_progress {
      request_id = 7;
      kind = OperationKind.flush;
      phase = OperationPhase.complete;
      state = OperationState.succeeded;
    };
    result_ready = true;
    last_request_id = 7;
  };
}

-- The panel with one page in RAM, its first window dirty, and the flush of it in a state.
abbrev pub windowed : FlushState → Driver
windowed s = record lit {
  config = record small_config { page_buffer_pages = 1 };
  dirty = record reset_dirty {
    pages = 1;
    min_col = 2 ∷ replicate 7 0xFF;
    max_col = 5 ∷ replicate 7 0;
  };
  flush = record reset_flush { state = s; accounted = true };
  paging = record reset_paging { in_page_iteration = true };
}

-- A lit panel of 128 columns, which can scroll.
abbrev pub scrollable : Driver
scrollable = record lit { config = record small_config { width = 128 } }
