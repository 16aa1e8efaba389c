-- ===== src/Config/Validate/Laws.antt =====
-- What `_validateConfig` of src/SSD1315.cpp accepts.
use ssd.Common.{ℕ, true, false, ◌*◌, ◌/◌, ◌%◌, ◌≤◌, ◌<◌, ◌≡◌, ◌⊎◌, ◌↔◌, arith, ◌∙◌, refl}
use ssd.Status.{ControllerProfile, Status, is_ok, success}
use ssd.Config.{Config}
use ssd.Config.Validate.{
  is_some, is_supported_controller_profile, is_valid_com_pins_config, is_valid_charge_pump_voltage,
  is_valid_iref_selection, is_valid_vcomh_level, validate_buffer, validate_budgets, validate_panel,
  validate_config,
}

-- The storage holds the pages asked for.
pub record HasStorage (c : Config) : Type 0 where
  pub pages_in : (1 ≤ c.page_buffer_pages) × (c.page_buffer_pages ≤ c.height / 8)
  pub storage :
      (is_some c.external_buffer ≡ true)
        × (c.width * c.page_buffer_pages ≤ c.external_buffer_size_bytes)
      ⊎ (is_some c.external_buffer ≡ false) × (c.external_buffer_size_bytes ≡ 0)

pub record HasBudgets (c : Config) : Type 0 where
  pub budgets : (1 ≤ c.i2c_timeout_ms) × (1 ≤ c.byte_budget_per_tick)
  pub write_in : (4 ≤ c.max_write_bytes) × (c.max_write_bytes ≤ 129)
  pub pins : is_valid_com_pins_config c.com_pins ≡ true
  pub pump : is_valid_charge_pump_voltage c.charge_pump_voltage ≡ true
  pub current : is_valid_iref_selection c.iref ≡ true
  pub level : is_valid_vcomh_level c.vcomh ≡ true

pub record HasRegisters (c : Config) : Type 0 where
  pub clock_in : (1 ≤ c.clock_divide) × (c.clock_divide ≤ 16) × (c.osc_frequency ≤ 15)
  pub phase1_in : (1 ≤ c.precharge_phase1) × (c.precharge_phase1 ≤ 15)
  pub phase2_in : (1 ≤ c.precharge_phase2) × (c.precharge_phase2 ≤ 15)
  pub contrast_in : 1 ≤ c.contrast
  pub lines_in : (c.display_offset ≤ 63) × (c.start_line ≤ 63) × (c.start_line < c.height)

pub record HasPanel (c : Config) : Type 0 where
  pub callback : is_some c.i2c_write ≡ true
  pub profile : c.controller_profile ≡ ControllerProfile.ssd1315
  pub width_in : (1 ≤ c.width) × (c.width ≤ 128)
  pub height_in : (16 ≤ c.height) × (c.height ≤ 64) × (c.height % 8 ≡ 0)
  pub address : (c.i2c_address ≡ 0x3C) ⊎ (c.i2c_address ≡ 0x3D)

-- What a usable configuration is, stated on its fields.
pub record IsUsable (c : Config) : Type 0 where
  pub panel : HasPanel c
  pub registers : HasRegisters c
  pub transport : HasBudgets c
  pub memory : HasStorage c

abbrev pub Accepted : Config → Status × ℕ
Accepted c = (success, c.width * c.page_buffer_pages)

validate_buffer_iff : (c : Config) → (is_ok (validate_buffer c).0 ≡ true) ↔ HasStorage c
unfolding validate_buffer
validate_buffer_iff c = (λ h. ground arith, λ h. ground arith)

validate_buffer-Accepted : (c : Config) → HasStorage c → validate_buffer c ≡ Accepted c
unfolding validate_buffer
validate_buffer-Accepted c h = ground arith

validate_budgets_sound :
    (c : Config)
    → is_ok (validate_budgets c).0 ≡ true
    → HasBudgets c × (is_ok (validate_buffer c).0 ≡ true)
unfolding validate_budgets
validate_budgets_sound c h = ground arith

validate_budgets_complete : (c : Config) → HasBudgets c → validate_budgets c ≡ validate_buffer c
unfolding validate_budgets
validate_budgets_complete c h = ground arith

validate_panel_sound :
    (c : Config)
    → is_ok (validate_panel c).0 ≡ true
    → HasRegisters c × (is_ok (validate_budgets c).0 ≡ true)
unfolding validate_panel
validate_panel_sound c h = ground arith

validate_panel_complete : (c : Config) → HasRegisters c → validate_panel c ≡ validate_budgets c
unfolding validate_panel
validate_panel_complete c h = ground arith

supported_profile :
    (p : ControllerProfile)
    → is_supported_controller_profile p ≡ true
    → p ≡ ControllerProfile.ssd1315
unfolding is_supported_controller_profile
supported_profile ControllerProfile.ssd1315 h = refl
supported_profile (ControllerProfile.other byte) h = absurd (ground (arith, h))

validate_config_sound :
    (c : Config)
    → is_ok (validate_config c).0 ≡ true
    → HasPanel c × (is_ok (validate_panel c).0 ≡ true)
unfolding validate_config
validate_config_sound c h = ground (arith, supported_profile c.controller_profile)

validate_config_complete : (c : Config) → HasPanel c → validate_config c ≡ validate_panel c
unfolding validate_config
validate_config_complete c h = ground (arith, h.profile)

-- A configuration is accepted exactly when it is usable.
pub validate_config_iff : (c : Config) → (is_ok (validate_config c).0 ≡ true) ↔ IsUsable c
validate_config_iff c = (sound, complete)
  where
    sound : is_ok (validate_config c).0 ≡ true → IsUsable c
    sound h =
        let (p, h1) = validate_config_sound c h in
        let (r, h2) = validate_panel_sound c h1 in
        let (b, h3) = validate_budgets_sound c h2 in
        record { panel = p; registers = r; transport = b; memory = (validate_buffer_iff c).0 h3 }

    complete : IsUsable c → is_ok (validate_config c).0 ≡ true
    complete u =
        rw
          (
            validate_config_complete c u.panel,
            validate_panel_complete c u.registers,
            validate_budgets_complete c u.transport,
          )
          ((validate_buffer_iff c).1 u.memory)

-- What is accepted needs `width * pageBufferPages` bytes of framebuffer.
pub validate_config-Accepted : (c : Config) → IsUsable c → validate_config c ≡ Accepted c
validate_config-Accepted c u =
    validate_config_complete c u.panel
    ∙ validate_panel_complete c u.registers
    ∙ validate_budgets_complete c u.transport
    ∙ validate_buffer-Accepted c u.memory
