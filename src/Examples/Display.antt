-- ===== src/Examples/Display.antt =====
-- The refinement of the display memory, on a panel of 8 columns and 16 rows.
use ssd.Common.{
  ℕ, zero, suc, true, false, ◌+◌, ◌*◌, ◌%◌, ◌<◌, ◌≡◌, refl, arith, get_or, has_bit, has_bit_zero,
  has_bit-set_bit, set_bit, ◌∷◌, ◌≤◌, replicate, sym,
}
use ssd.Status.{is_ok}
use ssd.Driver.{Driver, reset_flush}
use ssd.Frame.Bounds.{HasShape}
use ssd.Frame.Dirty.Cover.{HasWindows}
use ssd.Flush.Terminal.{consume_terminal_flush}
use ssd.Flush.Request.{request_flush_internal, request_flush}
use ssd.Flush.Poll.{poll_flush}
use ssd.Gddram.{Gddram, shown}
use ssd.Gddram.Refines.{Shown, Mirrors}
use ssd.Gddram.Polls.{Polled, poll_flush-Polled}
use ssd.Gddram.Request.{Prepared, Requested, request_flush-Requested}
use ssd.Gddram.Drawing.{set_pixel-Prepared}
use ssd.Gddram.Drawing.Circle.{draw_circle-Prepared}
use ssd.Gddram.Drawing.Filled.{clear-Prepared}
use ssd.Gddram.Drawing.Line.{draw_line-Prepared}
use ssd.Frame.Curves.Line.{draw_line}
use ssd.Common.Int.{negsuc}
use ssd.Common.Int.{pos}
use ssd.Common.{some}
use ssd.Frame.Pixel.{set_pixel, clear, fill}
use ssd.Frame.Curves.Circle.{draw_circle}
use ssd.Examples.{plain_flush}

abbrev blank : Gddram
blank = record {
  ram = λ p c. 0;
  col_start = 0;
  col_end = 127;
  page_start = 0;
  page_end = 7;
  col = 0;
  page = 0;
}

abbrev zero_byte : ℕ
zero_byte = 0

zeros : (n i : ℕ) → get_or (replicate n 0) i 0 ≡ zero_byte
zeros zero i = refl
zeros (suc n) zero = refl
zeros (suc n) (suc i) = zeros n i

plain_flush-HasShape : HasShape plain_flush
plain_flush-HasShape = record {
  attached = refl;
  width_in = (omega arith, omega arith);
  pages_in = (omega arith, omega arith);
  total = (omega arith, refl);
  window = omega arith;
  stored = refl;
}

other_bits : (p : ℕ) → suc p < 8 → has_bit 1 (suc p) ≡ false
unfolding set_bit
other_bits p h =
    let e = has_bit-set_bit 0 0 (suc p) (omega arith) (omega arith) h in
    let z = has_bit_zero (suc p) h in ground (arith, e, z)

right_edges : (p : ℕ) → get_or (5 ∷ replicate 7 0) p 0 < 8
right_edges zero = omega arith
right_edges (suc p) = let e = zeros 7 p in omega (arith, e)

windows_ordered :
    (p : ℕ)
    → p < 8
    → has_bit 1 p ≡ true
    → get_or (2 ∷ replicate 7 0xFF) p 0 ≤ get_or (5 ∷ replicate 7 0) p 0
windows_ordered zero h b = omega arith
windows_ordered (suc p) h b = absurd (ground (arith, other_bits p h, b))

plain_flush-HasWindows : HasWindows 8 plain_flush.dirty
plain_flush-HasWindows = record {
  mask = omega arith;
  lengths = (refl, refl, refl);
  on_panel = λ p h. right_edges p;
  ordered = windows_ordered;
}

plain_flush-Shown : Shown blank plain_flush
unfolding shown
plain_flush-Shown = record { shows = λ p c x y z. sym (zeros 16 (c + p % 2 * 8)) }

plain_flush-Mirrors : Mirrors blank plain_flush
plain_flush-Mirrors = record {
  shape = plain_flush-HasShape;
  full = refl;
  windows = plain_flush-HasWindows;
  shows = plain_flush-Shown;
  window = record {
    page_in = omega arith;
    end_in = (omega arith, omega arith);
    low = omega arith;
    high = omega arith;
    ordered = omega arith;
    on_panel = omega arith;
  };
  ready = omega arith;
}

poll_flush-Polled_example : Polled blank (poll_flush plain_flush 10 4 128)
poll_flush-Polled_example = poll_flush-Polled blank plain_flush 10 4 128 refl plain_flush-Mirrors

-- The same content, before its flush was requested.
abbrev marked : Driver
marked = record plain_flush { flush = reset_flush }

marked-Prepared : Prepared blank marked
unfolding shown
marked-Prepared = record {
  shape = record {
    attached = refl;
    width_in = (omega arith, omega arith);
    pages_in = (omega arith, omega arith);
    total = (omega arith, refl);
    window = omega arith;
    stored = refl;
  };
  full = refl;
  windows = plain_flush-HasWindows;
  shows = record { shows = λ p c x y z. sym (zeros 16 (c + p % 2 * 8)) };
}

marked_accepted : is_ok (request_flush marked).0 ≡ true
unfolding request_flush request_flush_internal consume_terminal_flush
marked_accepted = refl

request_flush-Requested_example : Requested blank (request_flush marked).1
request_flush-Requested_example =
    request_flush-Requested blank marked marked-Prepared marked_accepted

set_pixel-Prepared_example : Prepared blank (set_pixel marked (pos 6) (pos 11) true)
set_pixel-Prepared_example = set_pixel-Prepared blank marked (pos 6) (pos 11) true marked-Prepared

draw_circle-Prepared_example :
    (e : Driver) × (draw_circle marked (pos 4) (pos 7) (pos 3) true ≡ some e) × Prepared blank e
draw_circle-Prepared_example =
    draw_circle-Prepared blank marked (pos 4) (pos 7) (pos 3) true marked-Prepared

clear-Prepared_example : Prepared blank (clear marked) × Prepared blank (fill marked)
clear-Prepared_example = clear-Prepared blank marked marked-Prepared

draw_line-Prepared_example :
    (e : Driver) × (draw_line marked (negsuc 2) (pos 1) (pos 9) (pos 14) true ≡ some e)
    × Prepared blank e
draw_line-Prepared_example =
    draw_line-Prepared blank marked (negsuc 2) (pos 1) (pos 9) (pos 14) true marked-Prepared
