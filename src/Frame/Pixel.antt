-- ===== src/Frame/Pixel.antt =====
-- setPixel, getPixel, clear and fill of src/SSD1315.cpp, and the write of one framebuffer bit
-- that the drawing loops share.
pub mod Dirty
pub mod RoundTrip
pub mod Bytes
use ssd.Common.{
  ℕ, Bool, false, none, some, List, ◌/◌, not, u8, if◌then◌else◌, get_or, set, replicate, has_bit,
  set_bit, clear_bit,
}
use ssd.Common.Int.{ℤ, pos_part}
use ssd.Driver.{Driver}
use ssd.Frame.Geometry.{
  has_buffer, is_in_buffer, buffer_row, buffer_index, buffer_bit, get_buffer_size,
}
use ssd.Frame.Dirty.{mark_dirty, mark_all_dirty}

abbrev pub with_bytes : Driver → (List ℕ → List ℕ) → Driver
with_bytes d f = elim d.binding.buffer [
  | none ↦ d
  | some s ↦ record d {
    binding = record (d.binding) { buffer = some (record s { bytes = f s.bytes }) };
  }
]

abbrev pub bytes_of : Driver → List ℕ
bytes_of d = elim d.binding.buffer [ none ↦ List.[] | some s ↦ s.bytes ]

-- `if (on) { _buffer[idx] |= bit; } else { _buffer[idx] &= ~bit; }`
unfoldable pub write_bit : Bool → ℕ → ℕ → List ℕ → List ℕ
write_bit on idx b bytes =
    set bytes idx (if on then set_bit (get_or bytes idx 0) b else clear_bit (get_or bytes idx 0) b)

-- The pixel in column `x` and row `buf_y` of the buffer.
unfoldable pub write_pixel : Driver → ℕ → ℕ → Bool → Driver
write_pixel d x buf_y on = with_bytes d (write_bit on (buffer_index d x buf_y) (buffer_bit buf_y))

unfoldable pub set_pixel : Driver → ℤ → ℤ → Bool → Driver
set_pixel d x y on =
    if not (has_buffer d)
    then d
    else if not (is_in_buffer d x y)
    then d
    else elim (buffer_row d y) [
      | none ↦ d
      | some buf_y ↦
          mark_dirty (write_pixel d (pos_part x) buf_y on) (u8 (pos_part y / 8)) (u8 (pos_part x))
            (u8 (pos_part x))
    ]

unfoldable pub get_pixel : Driver → ℤ → ℤ → Bool
get_pixel d x y =
    if not (has_buffer d)
    then false
    else if not (is_in_buffer d x y)
    then false
    else elim (buffer_row d y) [
      | none ↦ false
      | some buf_y ↦
          has_bit (get_or (bytes_of d) (buffer_index d (pos_part x) buf_y) 0) (buffer_bit buf_y)
    ]

-- memset(_buffer, value, getBufferSize())
unfoldable pub fill_buffer : Driver → ℕ → Driver
fill_buffer d value = with_bytes d (λ _. replicate (get_buffer_size d) value)

unfoldable pub clear : Driver → Driver
clear d = if not (has_buffer d) then d else mark_all_dirty (fill_buffer d 0)

unfoldable pub fill : Driver → Driver
fill d = if not (has_buffer d) then d else mark_all_dirty (fill_buffer d 0xFF)
