-- ===== src/Frame/Bounds.antt =====
-- The framebuffer of src/SSD1315.cpp: every byte that drawing or flushing touches is in it.
use ssd.Common.{
  ℕ, suc, u8, ◌-◌, if◌then◌else◌, true, some, ◌+◌, ◌*◌, ◌/◌, ◌%◌, ◌≤◌, ◌<◌, ◌≡◌, arith, length,
}
use ssd.Common.Int.{ℤ, pos, pos_part, -ℤ_parts}
use native.Mathlib.Nat.{mul-le-mul_right, mod-lt}
use ssd.Driver.{Driver}
use ssd.Frame.Geometry.{
  buffer_index, buffer_row, is_in_buffer, is_page_buffer_mode, page_buffer_y_offset,
}
use ssd.Frame.Pixel.{bytes_of}

-- The shape of an attached driver: what `attach` makes of a usable configuration.
pub record HasShape (d : Driver) : Type 0 where
  pub attached : d.binding.attached ≡ true
  pub width_in : (1 ≤ d.config.width) × (d.config.width ≤ 128)
  pub pages_in :
      (1 ≤ d.config.page_buffer_pages) × (d.config.page_buffer_pages ≤ d.binding.total_pages)
  pub total : (d.binding.total_pages ≤ 8) × (d.config.height ≡ d.binding.total_pages * 8)
  pub window : d.paging.current_buffer_page * d.config.page_buffer_pages < d.binding.total_pages
  pub stored : length (bytes_of d) ≡ d.config.width * d.config.page_buffer_pages

row_lt : (w p x r : ℕ) → x < w → r < p → x + r * w < w * p
row_lt w p x r hx hr = let k : suc r * w ≤ p * w = mul-le-mul_right w hr in grind arith

-- The byte of a pixel lies in the buffer, for each column of the panel and each row.
pub buffer_index-lt :
    (d : Driver) (x y : ℕ)
    → HasShape d
    → x < d.config.width
    → buffer_index d x y < length (bytes_of d)
unfolding buffer_index
buffer_index-lt d x y s h =
    let p = d.config.page_buffer_pages in
    let r = y / 8 % p in
    let m : r < p = mod-lt (y / 8) s.pages_in.0 in grind (arith, row_lt d.config.width p x (u8 r))

-- The first row of the panel that the buffer holds.
abbrev pub window_top : Driver → ℕ
window_top d = if is_page_buffer_mode d then page_buffer_y_offset d else 0

-- A pixel of the panel that the RAM window holds has a row of the buffer.
pub buffer_row_lem :
    (d : Driver) (x y : ℤ)
    → HasShape d
    → is_in_buffer d x y ≡ true
    → (window_top d ≤ pos_part y)
      × (pos_part y - window_top d < d.config.page_buffer_pages * 8)
      × (buffer_row d y ≡ some (pos_part y - window_top d))
      × (pos_part x < d.config.width)
      × (x ≡ pos (pos_part x))
      × (y ≡ pos (pos_part y))
      × (pos_part y < d.config.height)
unfolding is_in_buffer buffer_row is_page_buffer_mode page_buffer_y_offset
buffer_row_lem d x y s h = ground (arith, -ℤ_parts y (pos (page_buffer_y_offset d)))
