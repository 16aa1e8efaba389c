-- ===== src/Snapshots.antt =====
-- The snapshots of include/ssd1315/Status.h that getSettings and getFlushStatus of src/SSD1315.cpp
-- fill, without a transfer.
use ssd.Common.{ℕ, Bool, ◌==◌, ◌&&◌}
use ssd.Status.{Status, DriverState, PanelPowerState, ControllerProfile, success}
use ssd.Config.{Config}
use ssd.Config.Validate.{is_some}
use ssd.Driver.{Driver, FlushState, is_flushing}
use ssd.Frame.Geometry.{is_page_buffer_mode, get_buffer_size}
use ssd.Blocking.Calls.{has_clock}

pub data FlushPhase : Type 0 where
  idle set_col_addr set_page_addr send_data done error : FlushPhase

pub record FlushStatus : Type 0 where
  pub phase : FlushPhase
  pub in_progress : Bool
  pub dirty_pages : ℕ
  pub current_page : ℕ
  pub end_page : ℕ
  pub current_column : ℕ
  pub min_column : ℕ
  pub max_column : ℕ
  pub bytes_completed : ℕ
  pub data_chunk_count : ℕ
  pub transaction_count : ℕ
  pub last_error : Status

-- The `switch` of `getFlushStatus`.
unfoldable pub phase_of : FlushState → FlushPhase
phase_of FlushState.set_col_addr = FlushPhase.set_col_addr
phase_of FlushState.set_page_addr = FlushPhase.set_page_addr
phase_of FlushState.send_data = FlushPhase.send_data
phase_of FlushState.done = FlushPhase.done
phase_of FlushState.error = FlushPhase.error
phase_of FlushState.idle = FlushPhase.idle

unfoldable pub get_flush_status : Driver → FlushStatus
get_flush_status d = record {
  phase = phase_of d.flush.state;
  in_progress = is_flushing d;
  dirty_pages = d.dirty.pages;
  current_page = d.flush.page;
  end_page = d.flush.end_page;
  current_column = d.flush.col;
  min_column = d.flush.min_col;
  max_column = d.flush.max_col;
  bytes_completed = d.flush.bytes_completed;
  data_chunk_count = d.flush.data_chunk_count;
  transaction_count = d.flush.transaction_count;
  last_error = d.flush.error;
}

pub record SettingsSnapshot : Type 0 where
  pub attached : Bool
  pub initialized : Bool
  pub state : DriverState
  pub controller_profile : ControllerProfile
  pub i2c_address : ℕ
  pub i2c_timeout_ms : ℕ
  pub max_write_bytes : ℕ
  pub offline_threshold : ℕ
  pub has_now_ms_hook : Bool
  pub has_cooperative_yield_hook : Bool
  pub width : ℕ
  pub height : ℕ
  pub page_buffer_pages : ℕ
  pub total_pages : ℕ
  pub page_buffer_mode : Bool
  pub sleeping : Bool
  pub all_pixels_on : Bool
  pub panel_power_state : PanelPowerState
  pub user_page_count : ℕ
  pub active_user_page : ℕ
  pub current_page_index : ℕ
  pub page_iteration_active : Bool
  pub byte_budget_per_tick : ℕ
  pub flush_timeout_ms : ℕ
  pub display_on_delay_ms : ℕ
  pub inactivity_sleep_ms : ℕ
  pub page_cycle_ms : ℕ
  pub flip_x : Bool
  pub flip_y : Bool
  pub invert : Bool
  pub contrast : ℕ
  pub com_pins : ℕ
  pub charge_pump_voltage : ℕ
  pub iref : ℕ
  pub vcomh : ℕ
  pub clock_divide : ℕ
  pub osc_frequency : ℕ
  pub precharge_phase1 : ℕ
  pub precharge_phase2 : ℕ
  pub scroll_active : Bool
  pub clear_on_begin : Bool
  pub clear_on_recover : Bool
  pub has_external_buffer : Bool
  pub owns_buffer : Bool
  pub buffer_size : ℕ
  pub dirty_pages : ℕ
  pub gddram_synchronized : Bool
  pub flushing : Bool
  pub control_state_dirty : Bool
  pub control_state_error : Status
  pub last_ok_ms : ℕ
  pub last_error_ms : ℕ
  pub consecutive_failures : ℕ
  pub total_failures : ℕ
  pub total_success : ℕ
  pub last_error : Status

-- The call always succeeds: the second component is `out`.
unfoldable pub get_settings : Driver → Status × SettingsSnapshot
get_settings d = (
  success,
  record {
    attached = d.binding.attached;
    initialized = d.binding.initialized;
    state = d.health.driver_state;
    controller_profile = c.controller_profile;
    i2c_address = c.i2c_address;
    i2c_timeout_ms = c.i2c_timeout_ms;
    max_write_bytes = c.max_write_bytes;
    offline_threshold = c.offline_threshold;
    has_now_ms_hook = has_clock c;
    has_cooperative_yield_hook = c.has_cooperative_yield;
    width = c.width;
    height = c.height;
    page_buffer_pages = c.page_buffer_pages;
    total_pages = d.binding.total_pages;
    page_buffer_mode = is_page_buffer_mode d;
    sleeping = d.panel.sleeping;
    all_pixels_on = d.panel.all_pixels_on;
    panel_power_state = d.panel.panel_power_state;
    user_page_count = d.paging.user_page_count;
    active_user_page = d.paging.active_user_page;
    current_page_index = d.paging.current_buffer_page;
    page_iteration_active = d.paging.in_page_iteration;
    byte_budget_per_tick = c.byte_budget_per_tick;
    flush_timeout_ms = c.flush_timeout_ms;
    display_on_delay_ms = c.display_on_delay_ms;
    inactivity_sleep_ms = c.inactivity_sleep_ms;
    page_cycle_ms = c.page_cycle_ms;
    flip_x = c.flip_x;
    flip_y = c.flip_y;
    invert = c.invert;
    contrast = c.contrast;
    com_pins = c.com_pins;
    charge_pump_voltage = c.charge_pump_voltage;
    iref = c.iref;
    vcomh = c.vcomh;
    clock_divide = c.clock_divide;
    osc_frequency = c.osc_frequency;
    precharge_phase1 = c.precharge_phase1;
    precharge_phase2 = c.precharge_phase2;
    scroll_active = d.panel.scroll_active;
    clear_on_begin = c.clear_on_begin;
    clear_on_recover = c.clear_on_recover;
    has_external_buffer = is_some c.external_buffer;
    owns_buffer = d.binding.owns_buffer;
    buffer_size = get_buffer_size d;
    dirty_pages = d.dirty.pages;
    gddram_synchronized = d.dirty.gddram_synchronized && d.dirty.pages == 0;
    flushing = is_flushing d;
    control_state_dirty = d.panel.control_state_dirty;
    control_state_error = d.panel.control_state_error;
    last_ok_ms = d.health.last_ok_ms;
    last_error_ms = d.health.last_error_ms;
    consecutive_failures = d.health.consecutive_failures;
    total_failures = d.health.total_failures;
    total_success = d.health.total_success;
    last_error = d.binding.last_error;
  },
)
  where
    c : Config
    c = d.config
