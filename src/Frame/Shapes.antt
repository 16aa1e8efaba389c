-- ===== src/Frame/Shapes.antt =====
-- drawHLine, drawVLine, drawRect, fillRect and _fillPattern of src/SSD1315.cpp.
use ssd.Common.{
  ℕ, Bool, none, some, ◌+◌, ◌-◌, ◌/◌, ◌%◌, ◌==◌, not, ◌&&◌, ◌||◌, u8, u16, if◌then◌else◌, for_range,
}
use ssd.Common.Int.{ℤ, pos, pos_part, ltb_ℤ, leb_ℤ}
use ssd.Driver.{Driver}
use ssd.Frame.Geometry.{has_buffer, buffer_row, clamp_low, clamp_high, last_of}
use ssd.Frame.Dirty.{mark_dirty, mark_page_range, mark_all_dirty}
use ssd.Frame.Pixel.{write_pixel}

-- for (i = first; i <= last; i++), for `first` and `last` on the panel.
abbrev pub for_span : ℕ → ℕ → (ℕ → Driver → Driver) → Driver → Driver
for_span first last body d = for_range (last + 1 - first) first body d

-- One row of pixels, in row `buf_y` of the buffer.
unfoldable pub write_row : ℕ → ℕ → ℕ → Bool → Driver → Driver
write_row x0 x1 buf_y on d = for_span x0 x1 (λ x e. write_pixel e x buf_y on) d

unfoldable pub draw_hline : Driver → ℤ → ℤ → ℤ → Bool → Driver
draw_hline d x y w on =
    if not (has_buffer d) || leb_ℤ w (pos 0)
    then d
    else if ltb_ℤ y (pos 0) || leb_ℤ (pos d.config.height) y
    then d
    else if ltb_ℤ (last_of x w) (pos 0) || leb_ℤ (pos d.config.width) x
    then d
    else let x0 = pos_part (clamp_low x) in
      let x1 = pos_part (clamp_high d.config.width (last_of x w)) in
      elim (buffer_row d y) [
        | none ↦ d
        | some buf_y ↦ mark_dirty (write_row x0 x1 buf_y on d) (u8 (pos_part y / 8)) (u8 x0) (u8 x1)
      ]

-- One pixel of a column, if its row is in the RAM window.
unfoldable pub column_pixel : ℕ → Bool → ℕ → Driver → Driver
column_pixel x on y d = elim (buffer_row d (pos y)) [
  | none ↦ d
  | some buf_y ↦ write_pixel d x buf_y on
]

unfoldable pub draw_vline : Driver → ℤ → ℤ → ℤ → Bool → Driver
draw_vline d x y h on =
    if not (has_buffer d) || leb_ℤ h (pos 0)
    then d
    else if ltb_ℤ x (pos 0) || leb_ℤ (pos d.config.width) x
    then d
    else if ltb_ℤ (last_of y h) (pos 0) || leb_ℤ (pos d.config.height) y
    then d
    else let y0 = pos_part (clamp_low y) in
      let y1 = pos_part (clamp_high d.config.height (last_of y h)) in
      mark_page_range (for_span y0 y1 (column_pixel (pos_part x) on) d) (u8 (y0 / 8)) (u8 (y1 / 8))
        (pos_part x) (pos_part x)

abbrev pub int16_max : ℕ
int16_max = 32767

abbrev pub eq_ℤ : ℤ → ℤ → Bool
eq_ℤ a b = leb_ℤ a b && leb_ℤ b a

unfoldable pub draw_rect : Driver → ℤ → ℤ → ℤ → ℤ → Bool → Driver
draw_rect d x y w h on =
    if not (has_buffer d) || leb_ℤ w (pos 0) || leb_ℤ h (pos 0)
    then d
    else let right = last_of x w in
      let bottom = last_of y h in
      let d1 = draw_hline d x y w on in
      let d2 =
        if not (eq_ℤ bottom y) && leb_ℤ bottom (pos int16_max)
        then draw_hline d1 x bottom w on
        else d1 in
      let d3 = draw_vline d2 x y h on in
      if not (eq_ℤ right x) && leb_ℤ right (pos int16_max) then draw_vline d3 right y h on else d3

-- One row of a filled rectangle, if it is in the RAM window.
unfoldable pub fill_row : ℕ → ℕ → Bool → ℕ → Driver → Driver
fill_row x0 x1 on y d = elim (buffer_row d (pos y)) [
  | none ↦ d
  | some buf_y ↦ write_row x0 x1 buf_y on d
]

unfoldable pub fill_rect : Driver → ℤ → ℤ → ℤ → ℤ → Bool → Driver
fill_rect d x y w h on =
    if not (has_buffer d) || leb_ℤ w (pos 0) || leb_ℤ h (pos 0)
    then d
    else if ltb_ℤ (last_of x w) (pos 0)
        || ltb_ℤ (last_of y h) (pos 0)
        || leb_ℤ (pos d.config.width) x
        || leb_ℤ (pos d.config.height) y
    then d
    else let x0 = pos_part (clamp_low x) in
      let y0 = pos_part (clamp_low y) in
      let x1 = pos_part (clamp_high d.config.width (last_of x w)) in
      let y1 = pos_part (clamp_high d.config.height (last_of y h)) in
      mark_page_range (for_span y0 y1 (fill_row x0 x1 on) d) (u8 (y0 / 8)) (u8 (y1 / 8)) x0 x1

pub data TestPatternKind : Type 0 where
  checkerboard vertical_stripes horizontal_stripes : TestPatternKind

-- Whether the pattern lights column `x` of row `y`, for bands `size` pixels wide.
unfoldable pub pattern_pixel : TestPatternKind → ℕ → ℕ → ℕ → Bool
pattern_pixel TestPatternKind.checkerboard size x y =
    not ((u16 (x / size) + u16 (y / size)) % 2 == 0)
pattern_pixel TestPatternKind.vertical_stripes size x y = not (u16 (x / size) % 2 == 0)
pattern_pixel TestPatternKind.horizontal_stripes size x y = not (u16 (y / size) % 2 == 0)

unfoldable pub pattern_row : TestPatternKind → ℕ → ℕ → Driver → Driver
pattern_row kind size y d = elim (buffer_row d (pos y)) [
  | none ↦ d
  | some buf_y ↦
      for_range d.config.width 0 (λ x e. write_pixel e x buf_y (pattern_pixel kind size x y)) d
]

unfoldable pub fill_pattern : Driver → TestPatternKind → ℕ → Driver
fill_pattern d kind size =
    if not (has_buffer d) || size == 0
    then d
    else mark_all_dirty (for_range d.config.height 0 (pattern_row kind size) d)
