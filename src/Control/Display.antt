-- ===== src/Control/Display.antt =====
-- setContrast, setInvert, setFlipX, setFlipY, setSleep, setAllPixelsOn, setFadeMode and setZoom
-- of src/SSD1315.cpp, and the setters that only store a value.
use ssd.Common.{
  ℕ, Bool, true, false, ltb, leb, ◌==◌, not, ◌&&◌, ◌||◌, xor, bit_and, bit_or, if◌then◌else◌,
}
use ssd.Status.{Status, Err, PanelPowerState, error, is_ok}
use ssd.Command
use ssd.Driver.{Driver, PowerState}
use ssd.Frame.Dirty.{is_dirty, mark_all_dirty}
use ssd.Power.{mark_control_state_dirty, invalidate_modeled_panel_power, is_power, is_power_ready}
use ssd.Transport.{send_command, send_command2}
use ssd.Control.Raw.{admitted}

-- On success the new value is cached; a failure may leave the panel's own unknown.
unfoldable pub commit : Status × Driver → (Driver → Driver) → Status × Driver
commit (st, d) keep = (st, if is_ok st then keep d else mark_control_state_dirty d st)

unfoldable pub set_contrast : Driver → ℕ → Status × Driver
set_contrast d contrast = admitted d (
    if ltb contrast Command.contrast_min
    then (error Err.invalid_config, d)
    else commit (send_command2 d Command.set_contrast contrast)
        λ e. record e { config = record (e.config) { contrast = contrast } })

unfoldable pub set_invert : Driver → Bool → Status × Driver
set_invert d invert = admitted d (
    commit (send_command d (if invert then Command.invert_display else Command.normal_display))
      λ e. record e { config = record (e.config) { invert = invert } })

-- A change of the segment remap shows only in data written after it.
unfoldable pub set_flip_x : Driver → Bool → Status × Driver
set_flip_x d flip = admitted d (
    if d.paging.in_page_iteration && xor d.config.flip_x flip
    then (error Err.busy, d)
    else commit (send_command d (if flip then Command.seg_remap_on else Command.seg_remap_off)) λ e.
      (let f =
          if xor e.config.flip_x flip
          then mark_all_dirty
              (record e { dirty = record (e.dirty) { gddram_synchronized = false } })
          else e in
        record f { config = record (f.config) { flip_x = flip } }))

unfoldable pub set_flip_y : Driver → Bool → Status × Driver
set_flip_y d flip = admitted d (
    commit (send_command d (if flip then Command.com_scan_dec else Command.com_scan_inc))
      λ e. record e { config = record (e.config) { flip_y = flip } })

-- The panel after a confirmed DISPLAY_OFF or DISPLAY_ON.
unfoldable pub sleep_confirmed : Bool → Bool → Driver → Driver
sleep_confirmed sleep was_modeled_on d =
    if sleep
    then record d {
      panel = record (d.panel) {
        sleeping = true;
        panel_power_state = PanelPowerState.off;
        power_state = PowerState.off;
      };
    }
    else if was_modeled_on
    then record d { panel = record (d.panel) { sleeping = false } }
    else if d.config.display_on_delay_ms == 0
    then record d {
      panel = record (d.panel) {
        sleeping = false;
        power_state = PowerState.ready;
        power_on_delay_started = false;
        panel_power_state = PanelPowerState.on;
      };
    }
    else record d {
      panel = record (d.panel) {
        sleeping = false;
        power_state = PowerState.init_delay;
        power_on_ms = 0;
        power_on_delay_started = false;
        panel_power_state = PanelPowerState.starting;
      };
    }

unfoldable pub set_sleep : Driver → Bool → Status × Driver
set_sleep d sleep = admitted d (
    if not sleep && d.panel.control_state_dirty
    then (error Err.control_state_unknown, d)
    else if not sleep && d.panel.sleeping && (is_dirty d || not d.dirty.gddram_synchronized)
    then (error Err.state_error, d)
    else let was_modeled_on =
        not d.panel.sleeping
        && is_power d.panel.panel_power_state PanelPowerState.on
        && is_power_ready d.panel.power_state in
      let (st, e) = send_command d (if sleep then Command.display_off else Command.display_on) in
      (
        st,
        if is_ok st
            then sleep_confirmed sleep was_modeled_on e
            else mark_control_state_dirty (invalidate_modeled_panel_power e) st,
      ))

unfoldable pub set_all_pixels_on : Driver → Bool → Status × Driver
set_all_pixels_on d all_on = admitted d (
    commit (send_command d (if all_on then Command.display_all_on else Command.display_ram))
      λ e. record e { panel = record (e.panel) { all_pixels_on = all_on } })

unfoldable pub is_valid_fade_mode : ℕ → Bool
is_valid_fade_mode mode =
    mode == Command.fade_off || mode == Command.fade_out || mode == Command.fade_blink

unfoldable pub set_fade_mode : Driver → ℕ → ℕ → Status × Driver
set_fade_mode d mode interval = admitted d (
    if not (is_valid_fade_mode mode)
    then (error Err.invalid_config, d)
    else if ltb 15 interval
    then (error Err.invalid_config, d)
    else commit (send_command2 d Command.set_fade_blink (bit_or mode (bit_and interval 0x0F)))
        λ e. e)

unfoldable pub is_alternative_com_pins_config : ℕ → Bool
is_alternative_com_pins_config value = not (bit_and value 0x10 == 0)

unfoldable pub set_zoom : Driver → Bool → Status × Driver
set_zoom d enable = admitted d (
    if enable && not (is_alternative_com_pins_config d.config.com_pins)
    then (error Err.invalid_config, d)
    else commit (send_command2 d Command.set_zoom (if enable then 0x01 else 0x00)) λ e. e)

unfoldable pub set_auto_sleep : Driver → ℕ → Driver
set_auto_sleep d inactivity_ms = record d {
  config = record (d.config) { inactivity_sleep_ms = inactivity_ms };
}

unfoldable pub set_page_cycle_interval : Driver → ℕ → Driver
set_page_cycle_interval d interval_ms = record d {
  config = record (d.config) { page_cycle_ms = interval_ms };
}

unfoldable pub set_user_page_count : Driver → ℕ → Driver
set_user_page_count d count =
    let n = if count == 0 then 1 else count in
    record d {
      paging = record (d.paging) {
        user_page_count = n;
        active_user_page = if leb n d.paging.active_user_page then 0 else d.paging.active_user_page;
      };
    }

unfoldable pub set_active_user_page : Driver → ℕ → Driver
set_active_user_page d index = record d {
  paging = record (d.paging) {
    active_user_page = if ltb index d.paging.user_page_count then index else 0;
  };
}
