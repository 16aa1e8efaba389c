-- ===== src/Pages.antt =====
-- Page-buffer iteration of src/SSD1315.cpp: clearDirty, clearDirtyIfIdle, firstPage and nextPage.
-- The RAM window moves over the panel; every window is drawn, flushed and left behind.
pub mod Windows
use ssd.Common.{
  ℕ, Bool, true, false, ◌+◌, ◌-◌, ◌*◌, ltb, leb, ◌==◌, not, ◌&&◌, ◌||◌, u8, if◌then◌else◌,
  replicate, for_range,
}
use ssd.Config.{max_pages}
use ssd.Status.{Status, Err, success, error, is, is_ok}
use ssd.Driver.{Driver, FlushState, operation_active, is_flushing}
use ssd.Frame.Geometry.{is_page_buffer_mode}
use ssd.Frame.Dirty.{mark_dirty, mark_all_dirty}
use ssd.Frame.Pixel.{fill_buffer}
use ssd.Health.{update_health, settle_page_flush, flush_failure, is_done, is_error}
use ssd.Flush.Request.{request_flush}

unfoldable pub clear_dirty : Driver → Driver
clear_dirty d =
    let d1 =
      if not (d.dirty.pages == 0)
      then (let e = settle_page_flush d in
          record e {
            dirty = record (e.dirty) { gddram_synchronized = false };
            paging = record (e.paging) { in_page_iteration = false };
          })
      else d in
    record d1 {
      dirty = record (d1.dirty) {
        pages = 0;
        min_col = replicate max_pages 0xFF;
        max_col = replicate max_pages 0;
      };
    }

unfoldable pub clear_dirty_if_idle : Driver → Status × Driver
clear_dirty_if_idle d =
    if operation_active d || d.operation.result_ready
    then (error Err.busy, d)
    else if is_flushing d
    then (error Err.busy, d)
    else if not (d.dirty.pages == 0) && (is_error d.flush.state || not (is_ok d.flush.error))
    then (error Err.state_error, d)
    else (success, clear_dirty d)

-- A terminal flush state is dropped, with its health outcome.
unfoldable pub drop_terminal : Driver → Driver
drop_terminal d =
    if is_done d.flush.state || is_error d.flush.state
    then (let e =
          if d.flush.accounted
          then d
          else update_health d (if is_done d.flush.state then success else d.flush.error) in
        record e {
          flush = record (e.flush) {
            state = FlushState.idle;
            started = false;
            accounted = false;
            error = success;
          };
        })
    else d

-- The start of an iteration, behind the guards.
unfoldable pub begin_pages : Driver → Driver
begin_pages d =
    let d1 = fill_buffer d 0 in
    let d2 = record d1 {
      dirty = record (d1.dirty) { gddram_synchronized = false };
      paging = record (d1.paging) { current_buffer_page = 0 };
    } in
    if not (is_page_buffer_mode d2)
    then mark_all_dirty (record d2 { paging = record (d2.paging) { in_page_iteration = false } })
    else let d3 = clear_dirty d2 in
      mark_all_dirty (record d3 { paging = record (d3.paging) { in_page_iteration = true } })

unfoldable pub first_page : Driver → Status × Driver
first_page d =
    if not d.binding.attached
    then (error Err.not_initialized, d)
    else if operation_active d || d.operation.result_ready || is_flushing d
    then (error Err.busy, d)
    else if is_error d.flush.state && not (d.dirty.pages == 0)
    then (error Err.state_error, d)
    else let e = drop_terminal d in
      if not (e.dirty.pages == 0) && not (is_ok e.flush.error)
      then (error Err.state_error, e)
      else (success, begin_pages e)

-- The window failed: it stays selected.
unfoldable pub retry_window : Driver → Driver
retry_window d =
    let failure = flush_failure d in
    let e = if d.flush.accounted then d else update_health d failure in
    record e {
      flush = record (e.flush) { accounted = false; error = failure; state = FlushState.idle };
      paging = record (e.paging) { in_page_iteration = true };
    }

-- The window was sent: it is kept if a drawing call touched it meanwhile, else the next one is
-- selected, if there is one.
unfoldable pub leave_window : Driver → Bool × Driver
leave_window d =
    let e0 = if d.flush.accounted then d else update_health d success in
    let e = record e0 { flush = record (e0.flush) { accounted = false } } in
    if not (e.dirty.pages == 0)
    then (
      true,
      record e {
        flush = record (e.flush) { state = FlushState.idle; started = false };
        dirty = record (e.dirty) { gddram_synchronized = false };
      },
    )
    else let page = u8 (e.paging.current_buffer_page + 1) in
      if leb e.binding.total_pages (u8 (page * e.config.page_buffer_pages))
      then (
        false,
        record e {
          paging = record (e.paging) { in_page_iteration = false; current_buffer_page = 0 };
          flush = record (e.flush) { state = FlushState.idle };
          dirty = record (e.dirty) { gddram_synchronized = true };
        },
      )
      else let f = record e { paging = record (e.paging) { current_buffer_page = page } } in
        let g = mark_all_dirty (clear_dirty (fill_buffer f 0)) in
        (true, record g { flush = record (g.flush) { state = FlushState.idle } })

-- The window is marked dirty and its flush requested.
unfoldable pub mark_window_page : ℕ → Driver → Driver
mark_window_page p d =
    let display_page = u8 (d.paging.current_buffer_page * d.config.page_buffer_pages + p) in
    if ltb display_page d.binding.total_pages
    then mark_dirty d display_page 0 (d.config.width - 1)
    else d

unfoldable pub send_window : Driver → Bool × Driver
send_window d =
    let (st, e) = request_flush (for_range d.config.page_buffer_pages 0 mark_window_page d) in
    if not (is_ok st) && not (is st Err.busy)
    then (
      false,
      record e {
        binding = record (e.binding) { last_error = st };
        paging = record (e.paging) { in_page_iteration = false };
      },
    )
    else (true, e)

unfoldable pub next_page : Driver → Bool × Driver
next_page d =
    if not d.binding.initialized || not d.paging.in_page_iteration
    then (false, d)
    else if operation_active d || d.operation.result_ready
    then (true, d)
    else if not (is_page_buffer_mode d)
    then (false, record d { paging = record (d.paging) { in_page_iteration = false } })
    else if is_flushing d
    then (true, d)
    else if is_error d.flush.state
    then (false, retry_window d)
    else if is_done d.flush.state
    then leave_window d
    else send_window d
