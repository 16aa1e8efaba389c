-- ===== src/Frame/Geometry.antt =====
-- Buffer helpers: bufferIndex, bufferBit, isInBuffer, _clipRect, _bufferRow, getBufferSize,
-- isPageBufferMode and pageBufferYOffset of src/SSD1315.cpp.
pub mod Clip
use ssd.Common.{
  ℕ, Bool, false, true, Option, none, some, ◌+◌, ◌-◌, ◌*◌, ◌/◌, ◌%◌, ltb, leb, not, ◌&&◌, ◌||◌, u8,
  if◌then◌else◌,
}
use ssd.Common.Int.{ℤ, pos, pos_part, ◌+ℤ◌, ◌-ℤ◌, ltb_ℤ, leb_ℤ}
use ssd.Config.Validate.{is_some}
use ssd.Driver.{Driver}

unfoldable pub is_page_buffer_mode : Driver → Bool
is_page_buffer_mode d = d.binding.attached && ltb d.config.page_buffer_pages d.binding.total_pages

unfoldable pub get_buffer_size : Driver → ℕ
get_buffer_size d =
    if not d.binding.attached then 0 else d.config.width * d.config.page_buffer_pages

unfoldable pub page_buffer_y_offset : Driver → ℕ
page_buffer_y_offset d =
    if not d.binding.attached
    then 0
    else d.paging.current_buffer_page * d.config.page_buffer_pages * 8

-- The arguments are a column and a row of the buffer.
unfoldable pub buffer_index : Driver → ℕ → ℕ → ℕ
buffer_index d x y = x + u8 (y / 8 % d.config.page_buffer_pages) * d.config.width

-- `1 << (y & 7)`
abbrev pub buffer_bit : ℕ → ℕ
buffer_bit y = y % 8

-- The first and the last page of the RAM window, in page-buffer mode.
abbrev pub buffer_start_page : Driver → ℕ
buffer_start_page d = u8 (d.paging.current_buffer_page * d.config.page_buffer_pages)

abbrev pub buffer_end_page : Driver → ℕ
buffer_end_page d = u8 (buffer_start_page d + d.config.page_buffer_pages - 1)

-- Attached, with a buffer: the guard of every drawing call.
abbrev pub has_buffer : Driver → Bool
has_buffer d = d.binding.attached && is_some d.binding.buffer

unfoldable pub is_in_buffer : Driver → ℤ → ℤ → Bool
is_in_buffer d x y =
    if not (has_buffer d)
    then false
    else if ltb_ℤ x (pos 0)
        || leb_ℤ (pos d.config.width) x
        || ltb_ℤ y (pos 0)
        || leb_ℤ (pos d.config.height) y
    then false
    else if is_page_buffer_mode d
    then leb (buffer_start_page d) (u8 (pos_part y / 8))
      && leb (u8 (pos_part y / 8)) (buffer_end_page d)
    else true

-- The row of the buffer that holds a row of the panel.
unfoldable pub buffer_row : Driver → ℤ → Option ℕ
buffer_row d y =
    if ltb_ℤ y (pos 0) || leb_ℤ (pos d.config.height) y
    then none
    else if not (is_page_buffer_mode d)
    then some (pos_part y)
    else let buf_y = y -ℤ pos (page_buffer_y_offset d) in
      if ltb_ℤ buf_y (pos 0) || leb_ℤ (pos (d.config.page_buffer_pages * 8)) buf_y
      then none
      else some (pos_part buf_y)

-- Inclusive bounds on the panel.
pub record Rect : Type 0 where
  pub x0 : ℕ
  pub y0 : ℕ
  pub x1 : ℕ
  pub y1 : ℕ

-- `if (v < 0) v = 0;`
abbrev pub clamp_low : ℤ → ℤ
clamp_low v = if ltb_ℤ v (pos 0) then pos 0 else v

-- `if (v >= limit) v = limit - 1;`
unfoldable pub clamp_high : ℕ → ℤ → ℤ
clamp_high limit v = if leb_ℤ (pos limit) v then pos limit -ℤ pos 1 else v

-- `v + extent - 1`
abbrev pub last_of : ℤ → ℤ → ℤ
last_of v extent = v +ℤ extent -ℤ pos 1

unfoldable pub clip_rect : Driver → ℤ → ℤ → ℤ → ℤ → Option Rect
clip_rect d x y w h =
    if not d.binding.attached || leb_ℤ w (pos 0) || leb_ℤ h (pos 0)
    then none
    else let x0 = clamp_low x in
      let y0 = clamp_low y in
      let x1 = clamp_high d.config.width (last_of x w) in
      let y1 = clamp_high d.config.height (last_of y h) in
      if leb_ℤ x0 x1 && leb_ℤ y0 y1
      then some (record { x0 = pos_part x0; y0 = pos_part y0; x1 = pos_part x1; y1 = pos_part y1 })
      else none
