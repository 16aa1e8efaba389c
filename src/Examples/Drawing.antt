-- ===== src/Examples/Drawing.antt =====
-- The theorems on the framebuffer, on a panel of 8 columns and 16 rows.
use ssd.Common.{
  ℕ, zero, suc, true, false, [], ◌∷◌, ◌≡◌, ◌≤◌, ◌<◌, ◌↔◌, inl, refl, arith, length, replicate, List,
  ◌+◌, ◌*◌, ◌%◌, get_or, has_bit_zero,
}
use ssd.Common.Int.{pos, negsuc}
use ssd.Frame.Geometry.{clip_rect, is_in_buffer, is_page_buffer_mode}
use ssd.Frame.Bounds.{HasShape}
use ssd.Frame.Dirty.Cover.{HasWindows, Covers, Markable}
use ssd.Frame.Geometry.Clip.{Holds, InSpan, clip_rect_iff}
use ssd.Frame.Pixel.{bytes_of, set_pixel, get_pixel}
use ssd.Frame.Pixel.Bytes.{IsBytes}
use ssd.Frame.Pixel.RoundTrip.{set_pixel-get_pixel, set_pixel-get_pixel_ne}
use ssd.Frame.Pixel.Dirty.{set_pixel-Covers}
use ssd.Flush.Poll.{chunk, chunk_size, chunk_offset}
use ssd.Flush.Poll.Chunk.{HasWindow, chunk_lem}
use ssd.Config.{max_data_bytes_for_write_capacity}
use ssd.Examples.{lit, flushing}

lit-HasShape : HasShape lit
lit-HasShape = record {
  attached = refl;
  width_in = (omega arith, omega arith);
  pages_in = (omega arith, omega arith);
  total = (omega arith, refl);
  window = omega arith;
  stored = refl;
}

flushing-HasShape : HasShape flushing
flushing-HasShape = record {
  attached = refl;
  width_in = (omega arith, omega arith);
  pages_in = (omega arith, omega arith);
  total = (omega arith, refl);
  window = omega arith;
  stored = refl;
}

zeros-IsBytes : (n i : ℕ) → get_or (replicate n 0) i 0 < 256
zeros-IsBytes zero i = omega arith
zeros-IsBytes (suc n) zero = omega arith
zeros-IsBytes (suc n) (suc i) = zeros-IsBytes n i

lit-IsBytes : IsBytes (bytes_of lit)
lit-IsBytes = zeros-IsBytes 16

zeros_max : (n p : ℕ) → get_or (replicate n 0) p 0 < 8
zeros_max zero p = omega arith
zeros_max (suc n) zero = omega arith
zeros_max (suc n) (suc p) = zeros_max n p

lit-HasWindows : HasWindows 8 lit.dirty
lit-HasWindows = record {
  mask = omega arith;
  lengths = (refl, refl, refl);
  on_panel = λ p h. zeros_max 8 p;
  ordered = λ p h marked. absurd (ground (arith, has_bit_zero p h));
}

pixel_in : is_in_buffer lit (pos 3) (pos 10) ≡ true
unfolding is_in_buffer is_page_buffer_mode
pixel_in = refl

set_pixel-get_pixel_example :
    get_pixel (set_pixel lit (pos 3) (pos 10) true) (pos 3) (pos 10) ≡ true
set_pixel-get_pixel_example =
    set_pixel-get_pixel lit (pos 3) (pos 10) true lit-HasShape lit-IsBytes pixel_in

other_row : ¬ ((pos 3 ≡ pos 3) × (pos 11 ≡ pos 10))
other_row (p, q) = absurd (ground arith)

set_pixel-get_pixel_ne_example :
    get_pixel (set_pixel lit (pos 3) (pos 10) true) (pos 3) (pos 11)
    ≡ get_pixel lit (pos 3) (pos 11)
set_pixel-get_pixel_ne_example =
    set_pixel-get_pixel_ne lit (pos 3) (pos 10) (pos 3) (pos 11) true lit-HasShape lit-IsBytes
      pixel_in other_row

set_pixel-Covers_example : Covers (set_pixel lit (pos 3) (pos 10) true).dirty 1 3
set_pixel-Covers_example =
    set_pixel-Covers lit (pos 3) (pos 10) true 1 3 lit-HasShape lit-HasWindows pixel_in
      (omega arith) (inl (refl, refl))

page_to_mark : Markable lit 1 2 5
unfolding is_page_buffer_mode
page_to_mark = record {
  windows = lit-HasWindows;
  page_in = (omega arith, omega arith);
  in_ram = refl;
  columns = (omega arith, omega arith);
}

whole_panel : is_page_buffer_mode lit ≡ false
unfolding is_page_buffer_mode
whole_panel = refl

clip_rect_iff_example :
    Holds (clip_rect lit (negsuc 1) (pos 4) (pos 5) (pos 3)) 2 6
    ↔ (((2 < 8) × InSpan (negsuc 1) (pos 5) 2) × (6 < 16) × InSpan (pos 4) (pos 3) 6)
clip_rect_iff_example =
    clip_rect_iff lit (negsuc 1) (pos 4) (pos 5) (pos 3) 2 6 refl (omega arith) (omega arith)

flushing-HasWindow : HasWindow flushing
flushing-HasWindow = record { left = omega arith; on_panel = omega arith }

chunk_lem_example :
    (length (chunk flushing 3) ≡ chunk_size flushing 3)
    × (chunk_offset flushing + chunk_size flushing 3 ≤ length (bytes_of flushing))
    × (flushing.flush.col + length (chunk flushing 3) ≤ flushing.flush.max_col + 1)
    × (length (chunk flushing 3) ≤ 3)
    × (length (chunk flushing 3)
        ≤ max_data_bytes_for_write_capacity flushing.config.max_write_bytes)
    × ((i : ℕ)
        → i < length (chunk flushing 3)
        → (flushing.flush.col + i ≤ flushing.flush.max_col)
          × (get_or (chunk flushing 3) i 0
              ≡ get_or
                  (bytes_of flushing)
                  (flushing.flush.col
                    + i
                    + flushing.flush.page % flushing.config.page_buffer_pages
                      * flushing.config.width)
                  0))
chunk_lem_example = chunk_lem flushing 3 flushing-HasShape flushing-HasWindow

abbrev two_lines : List ℕ
two_lines = 65 ∷ 66 ∷ 10 ∷ 67 ∷ 68 ∷ 69 ∷ []
