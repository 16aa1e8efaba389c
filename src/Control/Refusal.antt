-- ===== src/Control/Refusal.antt =====
-- The direct commands of src/SSD1315.cpp while the bus belongs to an operation or a flush.
use ssd.Common.{ℕ, Bool, true, Option, List, ◌≡◌, ◌||◌, arith}
use ssd.Status.{Status, Err, error}
use ssd.Driver.{Driver, operation_active, is_flushing}
use ssd.Transport.{check_direct_i2c_admission}
use ssd.Control.Raw.{send_command, send_command2, send_command3, send_command_list, probe}
use ssd.Control.Display.{
  set_contrast, set_invert, set_flip_x, set_flip_y, set_sleep, set_all_pixels_on, set_fade_mode,
  set_zoom,
}
use ssd.Control.Scroll.{stop_scroll, set_vertical_scroll_area}

-- A direct command with its arguments.
pub data Direct : Type 0 where
  command : ℕ → Direct
  command2 : ℕ → ℕ → Direct
  command3 : ℕ → ℕ → ℕ → Direct
  command_list : Option (List ℕ) → ℕ → Direct
  contrast : ℕ → Direct
  invert flip_x flip_y sleep all_pixels_on zoom : Bool → Direct
  fade_mode : ℕ → ℕ → Direct
  scroll_stop : Direct
  scroll_area : ℕ → ℕ → Direct
  presence : Direct

abbrev pub run_direct : Direct → Driver → Status × Driver
run_direct (Direct.command c) d = send_command d c
run_direct (Direct.command2 c a) d = send_command2 d c a
run_direct (Direct.command3 c a b) d = send_command3 d c a b
run_direct (Direct.command_list cs n) d = send_command_list d cs n
run_direct (Direct.contrast v) d = set_contrast d v
run_direct (Direct.invert b) d = set_invert d b
run_direct (Direct.flip_x b) d = set_flip_x d b
run_direct (Direct.flip_y b) d = set_flip_y d b
run_direct (Direct.sleep b) d = set_sleep d b
run_direct (Direct.all_pixels_on b) d = set_all_pixels_on d b
run_direct (Direct.zoom b) d = set_zoom d b
run_direct (Direct.fade_mode m i) d = set_fade_mode d m i
run_direct Direct.scroll_stop d = stop_scroll d
run_direct (Direct.scroll_area t n) d = set_vertical_scroll_area d t n
run_direct Direct.presence d = probe d

admission_busy :
    (d : Driver)
    → (operation_active d || d.operation.result_ready || is_flushing d) ≡ true
    → check_direct_i2c_admission d ≡ error Err.busy
unfolding check_direct_i2c_admission
admission_busy d h = ground arith

-- On an attached driver, while an operation is active, its result waits or a flush runs, every
-- direct command, probing included, is refused as busy and changes nothing: no frame reaches the
-- write callback.
pub run_direct-busy :
    (c : Direct) (d : Driver)
    → d.binding.attached ≡ true
    → (operation_active d || d.operation.result_ready || is_flushing d) ≡ true
    → run_direct c d ≡ (error Err.busy, d)
unfolding send_command send_command2 send_command3 send_command_list set_contrast set_invert
    set_flip_x set_flip_y set_sleep set_all_pixels_on set_fade_mode set_zoom stop_scroll
    set_vertical_scroll_area probe
run_direct-busy (Direct.command c) d there h = ground (arith, admission_busy d h)
run_direct-busy (Direct.command2 c a) d there h = ground (arith, admission_busy d h)
run_direct-busy (Direct.command3 c a b) d there h = ground (arith, admission_busy d h)
run_direct-busy (Direct.command_list cs n) d there h = ground (arith, admission_busy d h)
run_direct-busy (Direct.contrast v) d there h = ground (arith, admission_busy d h)
run_direct-busy (Direct.invert b) d there h = ground (arith, admission_busy d h)
run_direct-busy (Direct.flip_x b) d there h = ground (arith, admission_busy d h)
run_direct-busy (Direct.flip_y b) d there h = ground (arith, admission_busy d h)
run_direct-busy (Direct.sleep b) d there h = ground (arith, admission_busy d h)
run_direct-busy (Direct.all_pixels_on b) d there h = ground (arith, admission_busy d h)
run_direct-busy (Direct.zoom b) d there h = ground (arith, admission_busy d h)
run_direct-busy (Direct.fade_mode m i) d there h = ground (arith, admission_busy d h)
run_direct-busy Direct.scroll_stop d there h = ground (arith, admission_busy d h)
run_direct-busy (Direct.scroll_area t n) d there h = ground (arith, admission_busy d h)
run_direct-busy Direct.presence d there h = ground (arith, there, admission_busy d h)
