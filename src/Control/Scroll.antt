-- ===== src/Control/Scroll.antt =====
-- stopScroll and setVerticalScrollArea of src/SSD1315.cpp.
use ssd.Common.{ℕ, ◌+◌, ltb, leb, ◌==◌, not, ◌||◌, if◌then◌else◌}
use ssd.Status.{Status, Err, error, is_ok}
use ssd.Command.{scroll_deactivate, set_vert_scroll_area}
use ssd.Driver.{Driver}
use ssd.Power.{mark_control_state_dirty}
use ssd.Transport.{send_command, send_command3}
use ssd.Operation.Phases.{on_scroll_deactivated}
use ssd.Control.Raw.{admitted}

unfoldable pub stop_scroll : Driver → Status × Driver
stop_scroll d = admitted d (
    let (st, e) = send_command d scroll_deactivate in
    (st, if not (is_ok st) then mark_control_state_dirty e st else on_scroll_deactivated e))

unfoldable pub set_vertical_scroll_area : Driver → ℕ → ℕ → Status × Driver
set_vertical_scroll_area d top_fixed_rows scroll_rows = admitted d (
    if scroll_rows == 0
      || leb scroll_rows d.config.start_line
      || ltb d.config.height (top_fixed_rows + scroll_rows)
    then (error Err.invalid_config, d)
    else let (st, e) = send_command3 d set_vert_scroll_area top_fixed_rows scroll_rows in
      (
        st,
        if not (is_ok st)
            then mark_control_state_dirty e st
            else record e { panel = record (e.panel) { vertical_scroll_rows = scroll_rows } },
      ))
