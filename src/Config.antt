-- ===== src/Config.antt =====
-- include/ssd1315/Config.h: the configuration record, its defaults and the panel profiles.
-- A null pointer is `none`. The application's callbacks are not code of the driver: a callback
-- is an arbitrary function of its arguments and of the number of calls made before, which stands
-- for the state behind its `user` pointer. The yield callback returns nothing, so only its
-- presence is kept.
pub mod Enums
pub mod Validate
use Enums.{
  alternative_no_remap, v7_5, charge_pump_off, internal_19ua, iref_external, v_077_vcc, v_083_vcc,
}
use ssd.Common.{ℕ, Bool, true, false, Option, none, some, List, ◌*◌, ◌-◌, ltb, if◌then◌else◌}
use ssd.Status.{ControllerProfile, TransportResult, Status, Err, success, error}

-- `write address data timeout_ms calls_before`.
abbrev pub I2cWriteFn : Type 0
I2cWriteFn = ℕ → List ℕ → ℕ → ℕ → TransportResult

-- `now_ms reads_before`.
abbrev pub NowMsFn : Type 0
NowMsFn = ℕ → ℕ

-- SSD1315::MAX_WIDTH, MAX_HEIGHT and MAX_PAGES of include/ssd1315/SSD1315.h.
abbrev pub max_width : ℕ
max_width = 128

abbrev pub max_height : ℕ
max_height = 64

abbrev pub max_pages : ℕ
max_pages = 8

unfoldable pub required_framebuffer_bytes : ℕ → ℕ → ℕ
required_framebuffer_bytes width page_buffer_pages = width * page_buffer_pages

unfoldable pub max_data_bytes_for_write_capacity : ℕ → ℕ
max_data_bytes_for_write_capacity max_write_bytes =
    if ltb 1 max_write_bytes then max_write_bytes - 1 else 0

pub record Config : Type 0 where
  pub controller_profile : ControllerProfile
  pub width : ℕ
  pub height : ℕ
  pub i2c_address : ℕ
  pub i2c_write : Option I2cWriteFn
  pub max_write_bytes : ℕ
  pub now_ms : Option NowMsFn
  pub has_cooperative_yield : Bool
  pub page_buffer_pages : ℕ
  pub byte_budget_per_tick : ℕ
  pub i2c_timeout_ms : ℕ
  pub flush_timeout_ms : ℕ
  pub display_on_delay_ms : ℕ
  pub clear_on_begin : Bool
  pub clear_on_recover : Bool
  pub inactivity_sleep_ms : ℕ
  pub page_cycle_ms : ℕ
  pub flip_x : Bool
  pub flip_y : Bool
  pub invert : Bool
  pub contrast : ℕ
  pub com_pins : ℕ
  pub charge_pump_voltage : ℕ
  pub iref : ℕ
  pub vcomh : ℕ
  pub clock_divide : ℕ
  pub osc_frequency : ℕ
  pub precharge_phase1 : ℕ
  pub precharge_phase2 : ℕ
  pub display_offset : ℕ
  pub start_line : ℕ
  pub external_buffer : Option ℕ  -- an address
  pub external_buffer_size_bytes : ℕ
  pub offline_threshold : ℕ

-- Config{}
abbrev pub default_config : Config
default_config = record {
  controller_profile = ControllerProfile.ssd1315;
  width = 128;
  height = 64;
  i2c_address = 0x3C;
  i2c_write = none;
  max_write_bytes = 65;
  now_ms = none;
  has_cooperative_yield = false;
  page_buffer_pages = 8;
  byte_budget_per_tick = 128;
  i2c_timeout_ms = 25;
  flush_timeout_ms = 1000;
  display_on_delay_ms = 100;
  clear_on_begin = true;
  clear_on_recover = true;
  inactivity_sleep_ms = 0;
  page_cycle_ms = 0;
  flip_x = false;
  flip_y = false;
  invert = false;
  contrast = 0x7F;
  com_pins = alternative_no_remap;
  charge_pump_voltage = v7_5;
  iref = internal_19ua;
  vcomh = v_077_vcc;
  clock_divide = 1;
  osc_frequency = 8;
  precharge_phase1 = 2;
  precharge_phase2 = 2;
  display_offset = 0;
  start_line = 0;
  external_buffer = none;
  external_buffer_size_bytes = 0;
  offline_threshold = 3;
}

pub data PanelProfile : Type 0 where
  generic_128x64_internal_charge_pump : PanelProfile
  wisevision_x096_2864kswpg01_h30_internal_dc_dc : PanelProfile
  wisevision_x096_2864kswpg01_h30_external_vcc : PanelProfile

-- The fields that every profile sets alike, before the `switch`.
profile_base : Config → Config
profile_base cfg = record cfg {
  controller_profile = ControllerProfile.ssd1315;
  width = 128;
  height = 64;
  display_offset = 0;
  start_line = 0;
  com_pins = alternative_no_remap;
  precharge_phase1 = 2;
  precharge_phase2 = 2;
}

-- `none` is a byte that names no profile.
unfoldable pub apply_panel_profile : Config → Option PanelProfile → Status × Config
unfolding profile_base
apply_panel_profile cfg p = elim p [
  | none ↦ (error Err.invalid_config, cfg)
  | some q ↦ elim q [
    | PanelProfile.generic_128x64_internal_charge_pump ↦ (
      success,
      record (profile_base cfg) {
        flip_x = false;
        flip_y = false;
        contrast = 0x7F;
        clock_divide = 1;
        osc_frequency = 8;
        vcomh = v_077_vcc;
        charge_pump_voltage = v7_5;
        iref = internal_19ua;
      },
    )
    | PanelProfile.wisevision_x096_2864kswpg01_h30_internal_dc_dc ↦ (
      success,
      record (profile_base cfg) {
        flip_x = true;
        flip_y = true;
        contrast = 0xB0;
        clock_divide = 1;
        osc_frequency = 9;
        vcomh = v_083_vcc;
        charge_pump_voltage = v7_5;
        iref = iref_external;
      },
    )
    | PanelProfile.wisevision_x096_2864kswpg01_h30_external_vcc ↦ (
      success,
      record (profile_base cfg) {
        flip_x = true;
        flip_y = true;
        contrast = 0xB0;
        clock_divide = 1;
        osc_frequency = 9;
        vcomh = v_083_vcc;
        charge_pump_voltage = charge_pump_off;
        iref = iref_external;
      },
    )
  ]
]
