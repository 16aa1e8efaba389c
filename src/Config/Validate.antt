-- ===== src/Config/Validate.antt =====
pub mod Laws
-- SSD1315::_validateConfig of src/SSD1315.cpp and the predicates that it calls.
use ssd.Common.{
  ℕ, Bool, true, false, Option, none, some, ◌+◌, ◌/◌, ◌%◌, ltb, leb, ◌==◌, not, ◌&&◌, ◌||◌,
  if◌then◌else◌,
}
use ssd.Status.{ControllerProfile, Err, Status, success, error}
use ssd.Command.{contrast_min}
use ssd.Config.Enums.{
  sequential_no_remap, alternative_no_remap, sequential_remap, alternative_remap, charge_pump_off,
  v7_5, v8_5, v9_0, iref_external, internal_19ua, internal_30ua, v_065_vcc, v_071_vcc, v_077_vcc,
  v_083_vcc,
}
use ssd.Config.{Config, max_width, max_height, required_framebuffer_bytes}

unfoldable pub is_supported_controller_profile : ControllerProfile → Bool
is_supported_controller_profile ControllerProfile.ssd1315 = true
is_supported_controller_profile (ControllerProfile.other byte) = false

unfoldable pub is_valid_com_pins_config : ℕ → Bool
is_valid_com_pins_config value =
    value == sequential_no_remap
    || value == alternative_no_remap
    || value == sequential_remap
    || value == alternative_remap

unfoldable pub is_valid_charge_pump_voltage : ℕ → Bool
is_valid_charge_pump_voltage value =
    value == charge_pump_off || value == v7_5 || value == v8_5 || value == v9_0

unfoldable pub is_valid_iref_selection : ℕ → Bool
is_valid_iref_selection value =
    value == iref_external || value == internal_19ua || value == internal_30ua

unfoldable pub is_valid_vcomh_level : ℕ → Bool
is_valid_vcomh_level value =
    value == v_065_vcc || value == v_071_vcc || value == v_077_vcc || value == v_083_vcc

unfoldable pub is_valid_ssd1315_address : ℕ → Bool
is_valid_ssd1315_address address = address == 0x3C || address == 0x3D

abbrev pub is_some {ℓ} : {A : Type ℓ} → Option A → Bool
is_some none = false
is_some (some _) = true

-- The last part: the pages of the buffer, and the storage that the caller hands over. The second
-- result is `requiredBufferSize`.
unfoldable pub validate_buffer : Config → Status × ℕ
unfolding required_framebuffer_bytes
validate_buffer c =
    let required = required_framebuffer_bytes c.width c.page_buffer_pages in
    if c.page_buffer_pages == 0 || ltb (c.height / 8) c.page_buffer_pages
    then (error Err.invalid_page_count, 0)
    else if is_some c.external_buffer && ltb c.external_buffer_size_bytes required
    then (error Err.buffer_too_small, required)
    else if not (is_some c.external_buffer) && not (c.external_buffer_size_bytes == 0)
    then (error Err.invalid_config, required)
    else (success, required)

-- The transport budgets and the configuration enumerations.
unfoldable pub validate_budgets : Config → Status × ℕ
unfolding is_valid_com_pins_config is_valid_charge_pump_voltage is_valid_iref_selection
    is_valid_vcomh_level
validate_budgets c =
    if c.i2c_timeout_ms == 0
    then (error Err.invalid_config, 0)
    else if c.byte_budget_per_tick == 0
    then (error Err.invalid_config, 0)
    else if ltb c.max_write_bytes 4 || ltb (max_width + 1) c.max_write_bytes
    then (error Err.invalid_config, 0)
    else if not (is_valid_com_pins_config c.com_pins)
        || not (is_valid_charge_pump_voltage c.charge_pump_voltage)
        || not (is_valid_iref_selection c.iref)
        || not (is_valid_vcomh_level c.vcomh)
    then (error Err.invalid_config, 0)
    else validate_buffer c

-- The panel's registers.
unfoldable pub validate_panel : Config → Status × ℕ
validate_panel c =
    if c.clock_divide == 0 || ltb 16 c.clock_divide
    then (error Err.invalid_config, 0)
    else if ltb 15 c.osc_frequency
    then (error Err.invalid_config, 0)
    else if c.precharge_phase1 == 0
        || ltb 15 c.precharge_phase1
        || c.precharge_phase2 == 0
        || ltb 15 c.precharge_phase2
    then (error Err.invalid_config, 0)
    else if ltb c.contrast contrast_min
    then (error Err.invalid_config, 0)
    else if ltb 63 c.display_offset || ltb 63 c.start_line
    then (error Err.invalid_config, 0)
    else if leb c.height c.start_line
    then (error Err.invalid_config, 0)
    else validate_budgets c

unfoldable pub validate_config : Config → Status × ℕ
unfolding is_supported_controller_profile is_valid_ssd1315_address
validate_config c =
    if not (is_some c.i2c_write)
    then (error Err.invalid_config, 0)
    else if not (is_supported_controller_profile c.controller_profile)
    then (error Err.invalid_config, 0)
    else if c.width == 0 || ltb max_width c.width
    then (error Err.invalid_dimensions, 0)
    else if ltb c.height 16 || ltb max_height c.height || not (c.height % 8 == 0)
    then (error Err.invalid_dimensions, 0)
    else if not (is_valid_ssd1315_address c.i2c_address)
    then (error Err.invalid_config, 0)
    else validate_panel c
