-- ===== src/Operation/Init.antt =====
-- _sendInitStep and _pollInitializePhase of src/SSD1315.cpp.
pub mod Steps
use ssd.Common.{
  ℕ, Bool, true, false, [], ◌∷◌, ◌+◌, ◌*◌, ltb, ◌==◌, not, sub32, bit_and, bit_or, u8, u16,
  if◌then◌else◌,
}
use ssd.Status.{Status, Err, PanelPowerState, success, error, is_ok}
use ssd.Command
use ssd.Config.{Config}
use ssd.Driver.{Driver, EffectState, PowerState}
use ssd.Frame.Dirty.{mark_all_dirty}
use ssd.Power.{
  invalidate_modeled_panel_power, mark_control_state_dirty, clear_control_state_dirty,
  effect_for_failure,
}
use ssd.Transport.{send_command, send_command2, send_command3, send_command_list}
use ssd.Operation.Finish.{with_progress, failed}

abbrev pub init_step_count : ℕ
init_step_count = 17

abbrev pub clock_div : Config → ℕ
clock_div c =
    u8 (bit_or (bit_and c.osc_frequency 0x0F * 16) (bit_and (sub32 c.clock_divide 1) 0x0F))

abbrev pub precharge : Config → ℕ
precharge c = u8 (bit_or (bit_and c.precharge_phase2 0x0F * 16) (bit_and c.precharge_phase1 0x0F))

-- Steps 9 to 16.
unfoldable pub send_late_step : Driver → ℕ → Status × Driver
send_late_step d step =
    if step == 9
    then send_command2 d Command.set_precharge (precharge c)
    else if step == 10
    then send_command2 d Command.set_vcomh c.vcomh
    else if step == 11
    then send_command2 d Command.set_contrast c.contrast
    else if step == 12
    then send_command2 d Command.set_iref c.iref
    else if step == 13
    then send_command_list d
        (Command.set_charge_pump ∷ c.charge_pump_voltage ∷ Command.scroll_deactivate ∷ [])
    else if step == 14
    then send_command_list d (Command.display_ram ∷ Command.set_fade_blink ∷ Command.fade_off ∷ [])
    else if step == 15
    then send_command_list d (
        (if c.invert then Command.invert_display else Command.normal_display)
        ∷ Command.set_zoom
        ∷ 0x00
        ∷ [])
    else if step == 16
    then send_command3 d Command.set_vert_scroll_area 0 c.height
    else (error Err.internal_error, d)
  where
    c : Config
    c = d.config

unfoldable pub send_init_step : Driver → ℕ → Status × Driver
send_init_step d step =
    if step == 0
    then send_command d Command.display_off
    else if step == 1
    then send_command2 d Command.set_memory_mode Command.addr_mode_horizontal
    else if step == 2
    then send_command d (u8 (bit_or Command.set_start_line (bit_and c.start_line 0x3F)))
    else if step == 3
    then send_command d (if c.flip_x then Command.seg_remap_on else Command.seg_remap_off)
    else if step == 4
    then send_command2 d Command.set_multiplex (u8 (sub32 c.height 1))
    else if step == 5
    then send_command d (if c.flip_y then Command.com_scan_dec else Command.com_scan_inc)
    else if step == 6
    then send_command2 d Command.set_display_offset c.display_offset
    else if step == 7
    then send_command2 d Command.set_com_pins c.com_pins
    else if step == 8
    then send_command2 d Command.set_clock_div (clock_div c)
    else send_late_step d step
  where
    c : Config
    c = d.config

-- `_operation.transactionCount++`
abbrev pub count_transaction : Driver → Driver
count_transaction d = with_progress d (record (d.operation.progress) {
  transaction_count = u16 (d.operation.progress.transaction_count + 1);
})

abbrev pub with_effect : Driver → EffectState → Driver
with_effect d e = with_progress d (record (d.operation.progress) { effect = e })

-- `_operation.power = _panelPowerState`
abbrev pub note_power : Driver → Driver
note_power d = with_progress d (record (d.operation.progress) { power = d.panel.panel_power_state })

-- A confirmed write came before the one that was just counted.
abbrev pub has_prefix : Driver → Bool
has_prefix d = ltb 1 d.operation.progress.transaction_count

-- The controller is configured, with the display off and nothing known of its GDDRAM.
unfoldable pub finish_initialize : Driver → Driver
finish_initialize d =
    let d1 = record d {
      binding = record (d.binding) { initialized = true };
      panel = record (d.panel) {
        sleeping = true;
        all_pixels_on = false;
        scroll_active = false;
        vertical_scroll_rows = d.config.height;
        panel_power_state = PanelPowerState.off;
        power_state = PowerState.off;
      };
    } in
    let d2 = clear_control_state_dirty (note_power d1) in
    mark_all_dirty (record d2 { dirty = record (d2.dirty) { gddram_synchronized = false } })

unfoldable pub poll_initialize_phase : Driver → Status × Driver
poll_initialize_phase d =
    let d1 = record d { paging = record (d.paging) { in_page_iteration = false } } in
    let (st, d2) = send_init_step d1 d1.operation.init_step in
    let d3 = count_transaction d2 in
    if not (is_ok st)
    then (let d4 = mark_control_state_dirty (note_power (invalidate_modeled_panel_power d3)) st in
        (st, failed d4 st (effect_for_failure st (has_prefix d4))))
    else let d4 = with_effect d3 EffectState.partial in
      let d5 = record d4 {
        operation = record (d4.operation) { init_step = u8 (d4.operation.init_step + 1) };
      } in
      if ltb d5.operation.init_step init_step_count
      then (error Err.in_progress, d5)
      else (success, finish_initialize d5)
