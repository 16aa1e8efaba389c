-- ===== src/Driver/Types.antt =====
-- The enumerations and records of include/ssd1315/SSD1315.h.
use ssd.Common.{ℕ, Bool, true, false, Option, List, ◌==◌}
use ssd.Status.{Status, DriverState, PanelPowerState}
use ssd.Config.{Config}

pub data OperationKind : Type 0 where
  none initialize flush sleep wake resync shutdown : OperationKind
  horizontal_scroll vertical_scroll : OperationKind

abbrev pub kind_value : OperationKind → ℕ
kind_value OperationKind.none = 0
kind_value OperationKind.initialize = 1
kind_value OperationKind.flush = 2
kind_value OperationKind.sleep = 3
kind_value OperationKind.wake = 4
kind_value OperationKind.resync = 5
kind_value OperationKind.shutdown = 6
kind_value OperationKind.horizontal_scroll = 7
kind_value OperationKind.vertical_scroll = 8

abbrev pub is_kind : OperationKind → OperationKind → Bool
is_kind k l = kind_value k == kind_value l

pub data OperationPhase : Type 0 where
  idle initialize_command set_col_addr set_page_addr send_data : OperationPhase
  display_off display_on display_on_delay charge_pump_off : OperationPhase
  scroll_deactivate scroll_configure scroll_activate complete : OperationPhase

abbrev pub phase_value : OperationPhase → ℕ
phase_value OperationPhase.idle = 0
phase_value OperationPhase.initialize_command = 1
phase_value OperationPhase.set_col_addr = 2
phase_value OperationPhase.set_page_addr = 3
phase_value OperationPhase.send_data = 4
phase_value OperationPhase.display_off = 5
phase_value OperationPhase.display_on = 6
phase_value OperationPhase.display_on_delay = 7
phase_value OperationPhase.charge_pump_off = 8
phase_value OperationPhase.scroll_deactivate = 9
phase_value OperationPhase.scroll_configure = 10
phase_value OperationPhase.scroll_activate = 11
phase_value OperationPhase.complete = 12

abbrev pub is_phase : OperationPhase → OperationPhase → Bool
is_phase p q = phase_value p == phase_value q

pub data OperationState : Type 0 where
  idle active succeeded failed cancelled timed_out : OperationState

abbrev pub state_value : OperationState → ℕ
state_value OperationState.idle = 0
state_value OperationState.active = 1
state_value OperationState.succeeded = 2
state_value OperationState.failed = 3
state_value OperationState.cancelled = 4
state_value OperationState.timed_out = 5

pub data EffectState : Type 0 where
  none confirmed partial indeterminate : EffectState

pub data FlushState : Type 0 where
  idle set_col_addr set_page_addr send_data done error : FlushState

pub data PowerState : Type 0 where
  off init_delay ready : PowerState

pub record OperationOptions : Type 0 where
  pub request_id : ℕ
  pub use_deadline : Bool
  pub deadline_ms : ℕ

pub record OperationProgress : Type 0 where
  pub request_id : ℕ
  pub kind : OperationKind
  pub phase : OperationPhase
  pub state : OperationState
  pub effect : EffectState
  pub power : PanelPowerState
  pub current_page : ℕ
  pub current_column : ℕ
  pub bytes_completed : ℕ
  pub data_chunk_count : ℕ
  pub transaction_count : ℕ
  pub status : Status

-- A frame that the write callback was handed.
pub record Frame : Type 0 where
  pub address : ℕ
  pub bytes : List ℕ
  pub timeout_ms : ℕ

pub record Bus : Type 0 where
  pub sent : List Frame
  pub calls : ℕ
  pub clock_reads : ℕ

-- The framebuffer: `_buffer` is an address with the bytes behind it.
pub record Storage : Type 0 where
  pub address : ℕ
  pub bytes : List ℕ

-- Attachment and lifecycle members.
pub record Binding : Type 0 where
  pub attached : Bool
  pub initialized : Bool
  pub buffer : Option Storage
  pub owns_buffer : Bool
  pub total_pages : ℕ
  pub last_error : Status
  pub transport_timeout_ms : ℕ

-- Cached panel controls and modeled power.
pub record Panel : Type 0 where
  pub sleeping : Bool
  pub all_pixels_on : Bool
  pub scroll_active : Bool
  pub panel_power_state : PanelPowerState
  pub power_state : PowerState
  pub power_on_ms : ℕ
  pub power_on_delay_started : Bool
  pub vertical_scroll_rows : ℕ
  pub control_state_dirty : Bool
  pub control_state_error : Status

-- Dirty tracking: a mask of pages, and for each page a column window and a generation.
pub record Dirty : Type 0 where
  pub pages : ℕ
  pub min_col : List ℕ
  pub max_col : List ℕ
  pub generation : List ℕ
  pub gddram_synchronized : Bool

-- The flush state machine.
pub record FlushJob : Type 0 where
  pub state : FlushState
  pub page : ℕ
  pub col : ℕ
  pub end_page : ℕ
  pub min_col : ℕ
  pub max_col : ℕ
  pub page_generation : ℕ
  pub start_ms : ℕ
  pub started : Bool
  pub accounted : Bool
  pub bytes_completed : ℕ
  pub data_chunk_count : ℕ
  pub transaction_count : ℕ
  pub error : Status

-- The single cooperative operation and its consume-once result.
pub record Operation : Type 0 where
  pub options : OperationOptions
  pub progress : OperationProgress
  pub result_ready : Bool
  pub last_request_id : ℕ
  pub init_step : ℕ
  pub delay_start_ms : ℕ
  pub delay_started : Bool
  pub scroll_left : Bool
  pub scroll_start_page : ℕ
  pub scroll_end_page : ℕ
  pub scroll_speed : ℕ
  pub scroll_vertical_offset : ℕ
  pub compat_request_id : ℕ

-- User pages and page-buffer iteration.
pub record Paging : Type 0 where
  pub user_page_count : ℕ
  pub active_user_page : ℕ
  pub current_buffer_page : ℕ
  pub in_page_iteration : Bool

-- Transport health.
pub record Health : Type 0 where
  pub driver_state : DriverState
  pub last_ok_ms : ℕ
  pub last_error_ms : ℕ
  pub consecutive_failures : ℕ
  pub total_failures : ℕ
  pub total_success : ℕ

pub record Driver : Type 0 where
  pub config : Config
  pub bus : Bus
  pub binding : Binding
  pub panel : Panel
  pub dirty : Dirty
  pub flush : FlushJob
  pub operation : Operation
  pub paging : Paging
  pub health : Health

abbrev pub operation_active : Driver → Bool
operation_active d = state_value d.operation.progress.state == 1

abbrev pub is_flushing_state : FlushState → Bool
is_flushing_state FlushState.set_col_addr = true
is_flushing_state FlushState.set_page_addr = true
is_flushing_state FlushState.send_data = true
is_flushing_state _ = false

-- isFlushing
abbrev pub is_flushing : Driver → Bool
is_flushing d = is_flushing_state d.flush.state
