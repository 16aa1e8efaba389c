-- ===== src/Power.antt =====
-- Modeled panel power and the certainty of cached controls: tickPowerOn, _markControlStateDirty,
-- _clearControlStateDirty, _invalidateModeledPanelPower, _effectForFailure and
-- _markRawCommandFailure of src/SSD1315.cpp.
use ssd.Common.{ℕ, Bool, true, false, leb, ◌==◌, not, ◌||◌, sub32, if◌then◌else◌}
use ssd.Status.{
  Status, Err, PanelPowerState, is, is_ok, is_in_progress, success,
  is_control_state_uncertain_error,
}
use ssd.Driver.{Driver, Panel, PowerState, EffectState}

-- The display-on guard has passed.
abbrev pub power_ready : Panel → Panel
power_ready p = record p {
  power_state = PowerState.ready;
  power_on_delay_started = false;
  panel_power_state = if p.sleeping then p.panel_power_state else PanelPowerState.on;
}

unfoldable pub tick_delay : Panel → ℕ → ℕ → Panel
tick_delay p delay now =
    if delay == 0
    then power_ready p
    else if not p.power_on_delay_started
    then record p { power_on_ms = now; power_on_delay_started = true }
    else if leb delay (sub32 now p.power_on_ms)
    then power_ready p
    else p

unfoldable pub tick_power_on : Driver → ℕ → Driver
tick_power_on d now = elim d.panel.power_state [
  | PowerState.init_delay ↦ record d { panel = tick_delay d.panel d.config.display_on_delay_ms now }
  | _ ↦ d
]

abbrev pub is_power : PanelPowerState → PanelPowerState → Bool
is_power PanelPowerState.unknown PanelPowerState.unknown = true
is_power PanelPowerState.off PanelPowerState.off = true
is_power PanelPowerState.starting PanelPowerState.starting = true
is_power PanelPowerState.on PanelPowerState.on = true
is_power _ _ = false

abbrev pub is_power_ready : PowerState → Bool
is_power_ready PowerState.ready = true
is_power_ready _ = false

abbrev pub is_init_delay : PowerState → Bool
is_init_delay PowerState.init_delay = true
is_init_delay _ = false

unfoldable pub mark_control_state_dirty : Driver → Status → Driver
mark_control_state_dirty d st =
    if is_ok st || is_in_progress st || not (is_control_state_uncertain_error st)
    then d
    else record d {
      panel = record (d.panel) { control_state_dirty = true; control_state_error = st };
    }

unfoldable pub clear_control_state_dirty : Driver → Driver
clear_control_state_dirty d = record d {
  panel = record (d.panel) { control_state_dirty = false; control_state_error = success };
}

unfoldable pub invalidate_modeled_panel_power : Driver → Driver
invalidate_modeled_panel_power d = record d {
  panel = record (d.panel) {
    panel_power_state = PanelPowerState.unknown;
    power_state = PowerState.off;
    power_on_ms = 0;
    power_on_delay_started = false;
  };
}

-- The second argument: a write before the failed one was confirmed.
unfoldable pub effect_for_failure : Status → Bool → EffectState
effect_for_failure st has_confirmed_prefix =
    if is st Err.i2c_nack_addr
    then if has_confirmed_prefix then EffectState.partial else EffectState.none
    else if is st Err.i2c_nack_data || is st Err.i2c_timeout || is st Err.i2c_bus_error
    then EffectState.indeterminate
    else if has_confirmed_prefix
    then EffectState.partial
    else EffectState.none

abbrev pub is_indeterminate : EffectState → Bool
is_indeterminate EffectState.indeterminate = true
is_indeterminate _ = false

unfoldable pub mark_raw_command_failure : Driver → Status → Driver
mark_raw_command_failure d st =
    if is st Err.i2c_nack_addr
    then d
    else let e = mark_control_state_dirty d st in
      if is_indeterminate (effect_for_failure st false)
      then (let f = invalidate_modeled_panel_power e in
          record f {
            dirty = record (f.dirty) { gddram_synchronized = false };
            paging = record (f.paging) { in_page_iteration = false };
          })
      else e
