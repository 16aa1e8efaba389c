-- ===== src/Frame/Dirty.antt =====
-- Dirty tracking: markDirty, markAllDirty, markDirtyRect and isDirty of src/SSD1315.cpp.
pub mod All
pub mod Cover
use ssd.Common.{
  ℕ, Bool, none, some, ◌+◌, ◌-◌, ◌/◌, ltb, leb, ◌==◌, not, ◌&&◌, ◌||◌, u8, u32, min, if◌then◌else◌,
  get_or, set, set_bit, for_range,
}
use ssd.Common.Int.{ℤ}
use ssd.Driver.{Driver, Dirty}
use ssd.Frame.Geometry.{is_page_buffer_mode, buffer_start_page, buffer_end_page, clip_rect}

abbrev pub is_dirty : Driver → Bool
is_dirty d = not (d.dirty.pages == 0)

-- The writes of `markDirty`, behind its guards.
unfoldable pub mark_page : Dirty → ℕ → ℕ → ℕ → Dirty
mark_page t page min_col max_col = record t {
  pages = set_bit t.pages page;
  min_col = if ltb min_col (get_or t.min_col page 0) then set t.min_col page min_col else t.min_col;
  max_col = if ltb (get_or t.max_col page 0) max_col then set t.max_col page max_col else t.max_col;
  generation = set t.generation page (u32 (get_or t.generation page 0 + 1));
}

-- Pages outside the RAM window are ignored in page-buffer mode.
abbrev pub in_window : Driver → ℕ → Bool
in_window d page =
    not (is_page_buffer_mode d) || leb (buffer_start_page d) page && leb page (buffer_end_page d)

unfoldable pub mark_dirty : Driver → ℕ → ℕ → ℕ → Driver
mark_dirty d page min_col max_col =
    if leb d.binding.total_pages page
    then d
    else if not (in_window d page)
    then d
    else let last = if leb d.config.width max_col then d.config.width - 1 else max_col in
      if ltb last min_col then d else record d { dirty = mark_page d.dirty page min_col last }

-- The body of the loop of `markAllDirty`: the whole page.
unfoldable pub mark_full_page : Driver → ℕ → Dirty → Dirty
mark_full_page d page t = record t {
  pages = set_bit t.pages page;
  min_col = set t.min_col page 0;
  max_col = set t.max_col page (d.config.width - 1);
  generation = set t.generation page (u32 (get_or t.generation page 0 + 1));
}

unfoldable pub mark_pages : Driver → ℕ → ℕ → Driver
mark_pages d start end_exclusive = record d {
  dirty = for_range (end_exclusive - start) start (mark_full_page d) d.dirty;
}

unfoldable pub mark_all_dirty : Driver → Driver
mark_all_dirty d =
    if d.binding.total_pages == 0
    then d
    else if not (is_page_buffer_mode d)
    then mark_pages d 0 d.binding.total_pages
    else let start = buffer_start_page d in
      let end_exclusive = min (start + d.config.page_buffer_pages) d.binding.total_pages in
      if leb end_exclusive start then d else mark_pages d start end_exclusive

-- The loop over the pages `first..last` that ends most drawing calls.
unfoldable pub mark_page_range : Driver → ℕ → ℕ → ℕ → ℕ → Driver
mark_page_range d first last x0 x1 =
    for_range (last + 1 - first) first (λ p e. mark_dirty e p (u8 x0) (u8 x1)) d

unfoldable pub mark_dirty_rect : Driver → ℤ → ℤ → ℤ → ℤ → Driver
mark_dirty_rect d x y w h = elim (clip_rect d x y w h) [
  | none ↦ d
  | some r ↦ mark_page_range d (u8 (r.y0 / 8)) (u8 (r.y1 / 8)) r.x0 r.x1
]
