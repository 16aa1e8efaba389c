-- ===== src/Frame/Bitmap.antt =====
-- drawBitmap of src/SSD1315.cpp, in both forms. A bitmap is a null pointer or the bytes behind it;
-- the products of 16-bit sizes stay under 2 ^ 32.
use ssd.Common.{
  ℕ, Bool, Option, none, some, List, ◌+◌, ◌-◌, ◌*◌, ◌/◌, ◌%◌, ltb, not, ◌||◌, u8, if◌then◌else◌,
  get_or, has_bit,
}
use ssd.Common.Int.{ℤ, pos, pos_part, ◌-ℤ◌, ltb_ℤ, leb_ℤ}
use ssd.Status.{Status, Err, success, error}
use ssd.Driver.{Driver}
use ssd.Frame.Geometry.{has_buffer, buffer_row, clamp_low, clamp_high, last_of}
use ssd.Frame.Dirty.{mark_page_range}
use ssd.Frame.Pixel.{write_pixel}
use ssd.Frame.Shapes.{for_span}

-- `(w + 7) / 8`
abbrev pub byte_width : ℤ → ℕ
byte_width w = (pos_part w + 7) / 8

-- The bit of a row of the bitmap, the most significant bit first.
unfoldable pub bitmap_bit : List ℕ → ℕ → ℕ → Bool
bitmap_bit bitmap row_start src_x =
    has_bit (get_or bitmap (row_start + src_x / 8) 0) (7 - src_x % 8)

-- One row, if it is in the RAM window: the columns `x0` to `x1` of the panel.
unfoldable pub bitmap_row : List ℕ → ℕ → ℤ → ℤ → ℕ → ℕ → Bool → ℕ → Driver → Driver
bitmap_row bitmap width_bytes x y x0 x1 on j d = elim (buffer_row d (pos j)) [
  | none ↦ d
  | some buf_y ↦
      let row_start = pos_part (pos j -ℤ y) * width_bytes in
      for_span x0 x1
        (λ i e.
          if bitmap_bit bitmap row_start (pos_part (pos i -ℤ x))
          then write_pixel e i buf_y on
          else e)
        d
]

unfoldable pub draw_bitmap : Driver → ℤ → ℤ → Option (List ℕ) → ℤ → ℤ → ℕ → Bool → Status × Driver
draw_bitmap d x y bitmap w h bitmap_size_bytes on =
    if not (has_buffer d)
    then (error Err.not_initialized, d)
    else if leb_ℤ w (pos 0) || leb_ℤ h (pos 0)
    then (success, d)
    else elim bitmap [
      | none ↦ (error Err.invalid_config, d)
      | some bytes ↦
          if ltb bitmap_size_bytes (byte_width w * pos_part h)
          then (error Err.buffer_too_small, d)
          else if ltb_ℤ (last_of x w) (pos 0)
              || ltb_ℤ (last_of y h) (pos 0)
              || leb_ℤ (pos d.config.width) x
              || leb_ℤ (pos d.config.height) y
          then (success, d)
          else let x0 = pos_part (clamp_low x) in
            let y0 = pos_part (clamp_low y) in
            let x1 = pos_part (clamp_high d.config.width (last_of x w)) in
            let y1 = pos_part (clamp_high d.config.height (last_of y h)) in
            (
              success,
              mark_page_range (for_span y0 y1 (bitmap_row bytes (byte_width w) x y x0 x1 on) d)
                  (u8 (y0 / 8)) (u8 (y1 / 8)) x0 x1,
            )
    ]

-- The form without a size, which trusts the caller for it.
unfoldable pub draw_whole_bitmap : Driver → ℤ → ℤ → Option (List ℕ) → ℤ → ℤ → Bool → Driver
draw_whole_bitmap d x y bitmap w h on =
    if leb_ℤ w (pos 0) || leb_ℤ h (pos 0)
    then (draw_bitmap d x y bitmap w h 0 on).1
    else (draw_bitmap d x y bitmap w h (byte_width w * pos_part h) on).1
