-- ===== src/Frame/Pixel/Bytes.antt =====
-- One bit of the framebuffer of src/SSD1315.cpp written, and every bit read back.
use ssd.Common.{
  ℕ, Bool, List, ◌<◌, ◌≡◌, ◌≢◌, ◌&&◌, ◌==◌, arith, length, get_or, set, get_or-set_self,
  get_or-set_ne, if◌then◌else◌, has_bit, set_bit, clear_bit, has_bit-set_bit, has_bit-clear_bit,
}
use ssd.Frame.Pixel.{write_bit}

-- Every element is a byte.
abbrev pub IsBytes : List ℕ → Type 0
IsBytes bytes = (i : ℕ) → get_or bytes i 0 < 256

-- Exactly the bit that is written changes.
pub has_bit-write_bit :
    (on : Bool) (i b : ℕ) (bytes : List ℕ) (j c : ℕ)
    → IsBytes bytes
    → i < length bytes
    → b < 8
    → c < 8
    → has_bit (get_or (write_bit on i b bytes) j 0) c
      ≡ (if i == j && b == c then on else has_bit (get_or bytes j 0) c)
unfolding write_bit
has_bit-write_bit on i b bytes j c k h hb hc =
    let m = get_or bytes i 0 in
    let s = has_bit-set_bit m b c (k i) hb hc in
    let t = has_bit-clear_bit m b c (k i) hb hc in
    let v = if on then set_bit m b else clear_bit m b in
    let w = get_or-set_self bytes i v 0 h in
    let n : i ≢ j → get_or (set bytes i v) j 0 ≡ get_or bytes j 0 = get_or-set_ne bytes v 0 in
    ground arith
