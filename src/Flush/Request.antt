-- ===== src/Flush/Request.antt =====
-- requestFlush, requestFlushRect and _requestFlushInternal of src/SSD1315.cpp.
use ssd.Common.{
  ℕ, zero, suc, Bool, true, false, none, some, Option, ◌+◌, ◌-◌, ltb, leb, ◌==◌, ◌||◌, ◌&&◌, not,
  u8, if◌then◌else◌, get_or, set, has_bit, clear_bit,
}
use ssd.Common.Int.{ℤ}
use ssd.Status.{Status, Err, success, error}
use ssd.Driver.{Driver, Dirty, FlushJob, FlushState, operation_active, is_flushing}
use ssd.Frame.Geometry.{clip_rect}
use ssd.Frame.Dirty.{mark_dirty_rect}
use ssd.Flush.Terminal.{consume_terminal_flush}

-- A page with a window that may be sent.
abbrev pub sendable : ℕ → Dirty → ℕ → Bool
sendable width t p =
    ltb (get_or t.min_col p 0) width && leb (get_or t.min_col p 0) (get_or t.max_col p 0)

unfoldable pub clear_page : Dirty → ℕ → Dirty
clear_page t p = record t {
  pages = clear_bit t.pages p;
  min_col = set t.min_col p 0xFF;
  max_col = set t.max_col p 0;
}

-- The search for the first dirty page from `p` on, `n` pages left: windows that cannot be sent
-- are dropped from the dirty state on the way.
unfoldable pub find_first : ℕ → ℕ → ℕ → Dirty → Option ℕ × Dirty
find_first zero p width t = (none, t)
find_first (suc n) p width t = elim (has_bit t.pages p) [
  | true ↦ elim (sendable width t p) [
    | true ↦ (some p, t)
    | false ↦ find_first n (p + 1) width (clear_page t p)
  ]
  | false ↦ find_first n (p + 1) width t
]

-- The search for the last dirty page, from `first + n` down to `first`.
unfoldable pub find_last : ℕ → ℕ → ℕ → Dirty → ℕ
find_last zero first width t = first
find_last (suc n) first width t =
    elim (has_bit t.pages (first + suc n) && sendable width t (first + suc n)) [
      | true ↦ first + suc n
      | false ↦ find_last n first width t
    ]

-- The job for the pages `p` to `last`.
unfoldable pub begin_job : FlushJob → Dirty → ℕ → ℕ → FlushJob
begin_job j t p last = record j {
  page = p;
  min_col = get_or t.min_col p 0;
  max_col = get_or t.max_col p 0;
  col = get_or t.min_col p 0;
  page_generation = get_or t.generation p 0;
  end_page = u8 last;
  state = FlushState.set_col_addr;
  started = false;
  accounted = false;
  error = success;
}

-- The counters of a new job.
abbrev pub zero_counters : FlushJob → FlushJob
zero_counters j = record j { bytes_completed = 0; data_chunk_count = 0; transaction_count = 0 }

-- The part behind the admission: the window of the first dirty page, if there is one.
unfoldable pub select_pages : Driver → Driver
select_pages d =
    let (first, t) = find_first d.binding.total_pages 0 d.config.width d.dirty in
    elim first [
      | none ↦ record d { dirty = t; flush = record (d.flush) { state = FlushState.idle } }
      | some p ↦
          let last = find_last (d.binding.total_pages - 1 - p) p d.config.width t in
          record d { dirty = t; flush = begin_job d.flush t p last }
    ]

unfoldable pub request_flush_internal : Driver → Status × Driver
request_flush_internal d =
    if not d.binding.initialized
    then (error Err.not_initialized, d)
    else let d1 = (consume_terminal_flush d).1 in
      if is_flushing d1
      then (error Err.busy, d1)
      else if d1.panel.control_state_dirty
      then (error Err.control_state_unknown, d1)
      else let d2 = record d1 { flush = zero_counters d1.flush } in
        if d2.dirty.pages == 0
        then (success, record d2 { flush = record (d2.flush) { state = FlushState.idle } })
        else if d2.panel.scroll_active
        then (error Err.state_error, d2)
        else (success, select_pages d2)

unfoldable pub request_flush : Driver → Status × Driver
request_flush d =
    if operation_active d || d.operation.result_ready
    then (error Err.busy, d)
    else request_flush_internal d

unfoldable pub request_flush_rect : Driver → ℤ → ℤ → ℤ → ℤ → Status × Driver
request_flush_rect d x y w h =
    if operation_active d || d.operation.result_ready
    then (error Err.busy, d)
    else if not d.binding.initialized
    then (error Err.not_initialized, d)
    else let d1 = (consume_terminal_flush d).1 in
      if is_flushing d1 then (error Err.busy, d1) else elim (clip_rect d1 x y w h) [
        | none ↦ (success, d1)
        | some _ ↦ request_flush (mark_dirty_rect d1 x y w h)
      ]
