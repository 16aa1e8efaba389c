-- ===== src/Status.antt =====
-- include/ssd1315/Status.h: error codes, the status that every operation returns, and the
-- result of one transport call. A status is its code and its detail: the message, a pointer to
-- a constant text that no code reads, is left out. `detail` is the bit pattern of an `int32_t`.
use ssd.Common.{ℕ, Bool, ◌==◌, ◌||◌}

pub data TransportCode : Type 0 where
  ok nack_address nack_data timeout bus_error : TransportCode
  -- Any other byte, which an application may cast to the enumeration.
  other : ℕ → TransportCode

pub record TransportResult : Type 0 where
  pub code : TransportCode
  pub detail : ℕ

pub data ControllerProfile : Type 0 where
  ssd1315 : ControllerProfile
  -- Any other byte, which an application may cast to the enumeration.
  other : ℕ → ControllerProfile

pub data Err : Type 0 where
  ok : Err
  invalid_config invalid_dimensions invalid_page_count : Err
  not_initialized state_error busy panel_not_ready cancelled : Err
  control_state_unknown result_not_available : Err
  i2c_nack_addr i2c_nack_data i2c_timeout i2c_bus_error : Err
  timeout buffer_overflow unsupported internal_error device_not_found : Err
  in_progress buffer_too_small driver_offline : Err

-- The value of the enumerator; `==` on codes compares these.
abbrev pub value : Err → ℕ
value Err.ok = 0
value Err.invalid_config = 1
value Err.invalid_dimensions = 2
value Err.invalid_page_count = 3
value Err.not_initialized = 4
value Err.state_error = 5
value Err.busy = 6
value Err.panel_not_ready = 7
value Err.cancelled = 8
value Err.control_state_unknown = 9
value Err.result_not_available = 10
value Err.i2c_nack_addr = 11
value Err.i2c_nack_data = 12
value Err.i2c_timeout = 13
value Err.i2c_bus_error = 14
value Err.timeout = 15
value Err.buffer_overflow = 16
value Err.unsupported = 17
value Err.internal_error = 18
value Err.device_not_found = 19
value Err.in_progress = 20
value Err.buffer_too_small = 21
value Err.driver_offline = 22

pub record Status : Type 0 where
  pub code : Err
  pub detail : ℕ

abbrev pub is : Status → Err → Bool
is st e = value st.code == value e

abbrev pub is_ok : Status → Bool
is_ok st = is st Err.ok

abbrev pub is_in_progress : Status → Bool
is_in_progress st = is st Err.in_progress

abbrev pub success : Status
success = record { code = Err.ok; detail = 0 }

abbrev pub error : Err → Status
error c = record { code = c; detail = 0 }

abbrev pub error_detail : Err → ℕ → Status
error_detail c detail = record { code = c; detail = detail }

pub data DriverState : Type 0 where
  uninit ready degraded offline : DriverState

pub data PanelPowerState : Type 0 where
  unknown off starting on : PanelPowerState

abbrev pub power_value : PanelPowerState → ℕ
power_value PanelPowerState.unknown = 0
power_value PanelPowerState.off = 1
power_value PanelPowerState.starting = 2
power_value PanelPowerState.on = 3

-- isControlStateUncertainError of src/SSD1315.cpp.
unfoldable pub is_control_state_uncertain_error : Status → Bool
is_control_state_uncertain_error st =
    is st Err.i2c_nack_addr
    || is st Err.i2c_nack_data
    || is st Err.i2c_timeout
    || is st Err.i2c_bus_error
    || is st Err.timeout
    || is st Err.device_not_found
    || is st Err.internal_error

-- SSD1315::_mapTransportResult.
unfoldable pub map_transport_result : TransportResult → Status
map_transport_result r = elim r.code [
  | TransportCode.ok ↦ success
  | TransportCode.nack_address ↦ error_detail Err.i2c_nack_addr r.detail
  | TransportCode.nack_data ↦ error_detail Err.i2c_nack_data r.detail
  | TransportCode.timeout ↦ error_detail Err.i2c_timeout r.detail
  | TransportCode.bus_error ↦ error_detail Err.i2c_bus_error r.detail
  | TransportCode.other byte ↦ error_detail Err.i2c_bus_error r.detail
]
