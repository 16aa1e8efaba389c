-- ===== src/Pages/Windows.antt =====
-- nextPage of src/SSD1315.cpp between windows: a window that failed or was redrawn is kept.
use ssd.Common.{true, false, ◌≡◌}
use ssd.Driver.{Driver, FlushState, operation_active}
use ssd.Frame.Geometry.{is_page_buffer_mode}
use ssd.Pages.{send_window, next_page}

-- An iteration over page windows, with the bus free.
pub record Iterating (d : Driver) : Type 0 where
  pub initialized : d.binding.initialized ≡ true
  pub started : d.paging.in_page_iteration ≡ true
  pub inactive : operation_active d ≡ false
  pub read : d.operation.result_ready ≡ false
  pub paged : is_page_buffer_mode d ≡ true

-- What a call leaves when it keeps the window, its bytes and its dirty marks, so that the next call
-- sends it.
pub record Kept (d e : Driver) : Type 0 where
  pub window :
      (e.paging.in_page_iteration ≡ true)
      × (e.paging.current_buffer_page ≡ d.paging.current_buffer_page)
  pub buffer : e.binding.buffer ≡ d.binding.buffer
  pub marks :
      (e.dirty.pages ≡ d.dirty.pages)
      × (e.dirty.min_col ≡ d.dirty.min_col)
      × (e.dirty.max_col ≡ d.dirty.max_col)
  pub silent : e.bus.sent ≡ d.bus.sent
  pub idle : e.flush.state ≡ FlushState.idle
  pub again : next_page e ≡ send_window e
