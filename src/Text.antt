-- ===== src/Text.antt =====
-- Text of src/SSD1315.cpp: drawChar, drawTextN and drawText, and the width of a text. A text is
-- its bytes; a C string ends before its first zero, and `none` is a null pointer.
pub mod Width
mod Font
use Font.{font_5x7}
use ssd.Common.{
  ℕ, zero, suc, Bool, true, false, Option, none, some, List, [], ◌∷◌, ◌+◌, ◌-◌, ◌*◌, ◌/◌, ltb, leb,
  ◌==◌, not, ◌&&◌, ◌||◌, u8, min, if◌then◌else◌, get_or, take, for_range, has_bit,
}
use ssd.Common.Int.{ℤ, pos, negsuc, pos_part, ◌+ℤ◌, ◌-ℤ◌, ltb_ℤ, leb_ℤ}
use ssd.Driver.{Driver}
use ssd.Frame.Geometry.{has_buffer, buffer_row, clamp_low, clamp_high}
use ssd.Frame.Dirty.{mark_page_range}
use ssd.Frame.Pixel.{write_pixel}
use ssd.Frame.Shapes.{fill_rect}

abbrev pub font_first_char : ℕ
font_first_char = 32

abbrev pub font_char_count : ℕ
font_char_count = 95

abbrev pub font_width : ℕ
font_width = 5

abbrev pub font_height : ℕ
font_height = 7

abbrev pub char_width : ℕ
char_width = 6

abbrev pub char_height : ℕ
char_height = 8

abbrev pub text_max_chars : ℕ
text_max_chars = 512

-- One bit of a glyph: only set bits are written.
unfoldable pub glyph_pixel : ℤ → ℤ → ℕ → Bool → ℕ → Driver → Driver
glyph_pixel px y col_data on row d =
    let py = y +ℤ pos row in
    if ltb_ℤ py (pos 0) || leb_ℤ (pos d.config.height) py then d else elim (buffer_row d py) [
      | none ↦ d
      | some buf_y ↦ if has_bit col_data row then write_pixel d (pos_part px) buf_y on else d
    ]

unfoldable pub glyph_column : ℤ → ℤ → ℕ → Bool → ℕ → Driver → Driver
glyph_column x y idx on col d =
    let px = x +ℤ pos col in
    if ltb_ℤ px (pos 0) || leb_ℤ (pos d.config.width) px
    then d
    else for_range font_height 0 (glyph_pixel px y (get_or font_5x7 (idx * font_width + col) 0) on)
        d

-- The dirty marks of a character cell.
unfoldable pub mark_cell : Driver → ℤ → ℤ → Driver
mark_cell d x y =
    let x0 = clamp_low x in
    let x1 = clamp_high d.config.width (x +ℤ pos font_width -ℤ pos 1) in
    let y0 = clamp_low y in
    let y1 = clamp_high d.config.height (y +ℤ pos font_height -ℤ pos 1) in
    if leb_ℤ x0 x1 && leb_ℤ y0 y1
    then mark_page_range d (u8 (pos_part y0 / 8)) (u8 (pos_part y1 / 8)) (pos_part x0) (pos_part x1)
    else d

unfoldable pub draw_char : Driver → ℤ → ℤ → ℕ → Bool → Driver
draw_char d x y ch on =
    if not (has_buffer d)
    then d
    else if ltb ch font_first_char || leb (font_first_char + font_char_count) ch
    then fill_rect d x y (pos font_width) (pos font_height) on
    else mark_cell (for_range font_width 0 (glyph_column x y (ch - font_first_char) on) d) x y

abbrev pub newline : ℕ
newline = b'\n'

abbrev pub carriage_return : ℕ
carriage_return = b'\r'

abbrev pub int16_max : ℤ
int16_max = pos 32767

abbrev pub int16_min : ℤ
int16_min = negsuc 32767

abbrev pub fits_int16 : ℤ → Bool
fits_int16 v = leb_ℤ int16_min v && leb_ℤ v int16_max

-- The loop over the characters, with the cursor.
unfoldable pub draw_chars : Driver → ℤ → ℤ → ℤ → List ℕ → Bool → ℤ × Driver
draw_chars d start_x x y [] on = (x, d)
draw_chars d start_x x y (c ∷ cs) on = elim (c == newline) [
  | true ↦ draw_chars d start_x start_x (y +ℤ pos char_height) cs on
  | false ↦ elim (c == carriage_return) [
    | true ↦ draw_chars d start_x start_x y cs on
    | false ↦
        draw_chars (if fits_int16 x && fits_int16 y then draw_char d x y c on else d) start_x
          (x +ℤ pos char_width) y cs on
  ]
]

abbrev pub clamp_int16 : ℤ → ℤ
clamp_int16 v = if ltb_ℤ int16_max v then int16_max else if ltb_ℤ v int16_min then int16_min else v

unfoldable pub draw_text_n : Driver → ℤ → ℤ → Option (List ℕ) → ℕ → Bool → ℤ × Driver
draw_text_n d x y text length on = elim text [
  | none ↦ (x, d)
  | some bytes ↦
      if length == 0
      then (x, d)
      else if not (has_buffer d)
      then (x, d)
      else let (cursor, e) = draw_chars d x x y (take (min length text_max_chars) bytes) on in
        (clamp_int16 cursor, e)
]

-- The bytes before the first zero, at most `n`.
unfoldable pub c_length : ℕ → List ℕ → ℕ
c_length zero s = 0
c_length (suc n) [] = 0
c_length (suc n) (c ∷ s) = let rest = c_length n s in if c == 0 then 0 else suc rest

unfoldable pub draw_text : Driver → ℤ → ℤ → Option (List ℕ) → Bool → ℤ × Driver
draw_text d x y str on = elim str [
  | none ↦ (x, d)
  | some s ↦ draw_text_n d x y (some s) (c_length text_max_chars s) on
]

abbrev pub is_line_end : ℕ → Bool
is_line_end c = c == newline || c == carriage_return

-- The loop of getTextWidthN: the widest completed run and the current one.
unfoldable pub measure : List ℕ → ℕ → ℕ → ℕ
measure [] max_width cur_width = if ltb max_width cur_width then cur_width else max_width
measure (c ∷ cs) max_width cur_width = elim (is_line_end c) [
  | true ↦ measure cs (if ltb max_width cur_width then cur_width else max_width) 0
  | false ↦ measure cs max_width (cur_width + char_width)
]

unfoldable pub get_text_width_n : Option (List ℕ) → ℕ → ℕ
get_text_width_n text length = elim text [
  | none ↦ 0
  | some bytes ↦
      if length == 0
      then 0
      else let result = measure (take (min length text_max_chars) bytes) 0 0 in
        if ltb 32767 result then 32767 else result
]

unfoldable pub get_text_width : Option (List ℕ) → ℕ
get_text_width str = elim str [
  | none ↦ 0
  | some s ↦ get_text_width_n (some s) (c_length text_max_chars s)
]
