-- ===== src/Gddram/Drawing.antt =====
-- setPixel of src/SSD1315.cpp against the display memory: what it draws is due.
pub mod Circle
pub mod Filled
pub mod Line
use ssd.Common.{
  ℕ, Bool, true, false, ◌+◌, ◌-◌, ◌*◌, ◌/◌, ◌%◌, ◌<◌, ◌≡◌, ◌≢◌, ◌⊎◌, inl, inr, arith, Bool-cases,
  has_bit, get_or, length, length-set, get_or-set_ne, List, ap, sym, ◌∙◌, u8,
}
use mathlib.Core.Path.{subst}
use native.Mathlib.Nat.{mod-eq_of_lt}
use ssd.Common.Int.{ℤ, pos_part}
use ssd.Driver.{Driver, Dirty}
use ssd.Frame.Geometry.{buffer_index, buffer_bit, is_in_buffer, is_page_buffer_mode}
use ssd.Frame.Bounds.{HasShape, buffer_row_lem, window_top}
use ssd.Frame.Dirty.{mark_dirty}
use ssd.Frame.Dirty.Cover.{HasWindows, Covers, mark_dirty-HasWindows}
use ssd.Frame.Pixel.{bytes_of, write_bit, write_pixel, set_pixel}
use ssd.Frame.Pixel.Dirty.{set_pixel-Covers, set_pixel_marks, write_pixel_frame}
use ssd.Frame.Pixel.RoundTrip.{written, set_pixel-Drawn, place_eq, page_row}
use ssd.Gddram.{Gddram, shown}
use ssd.Gddram.Mirror.{Clean}
use ssd.Gddram.Refines.{Shown}
use ssd.Gddram.Request.{Prepared}

due_or_not : (t : Dirty) (p c : ℕ) → Covers t p c ⊎ Clean t p c
due_or_not t p c = elim (Bool-cases (has_bit t.pages p)) [
  | inl marked ↦ ground arith
  | inr clear ↦ inr (inl clear)
]

pub Covers-Clean : (t : Dirty) (p c : ℕ) → Covers t p c → Clean t p c → ⊥
Covers-Clean t p c m k = ground (arith, m, k)

-- A column that is clean after the pixel is another one, and was clean before.
set_pixel-Clean :
    (d : Driver) (x y : ℤ) (on : Bool) (q c : ℕ)
    → HasShape d
    → HasWindows d.config.width d.dirty
    → is_in_buffer d x y ≡ true
    → q < 8
    → Clean (set_pixel d x y on).dirty q c
    → ¬ ((q ≡ pos_part y / 8) × (c ≡ pos_part x)) × Clean d.dirty q c
set_pixel-Clean d x y on q c s w h k clean =
    let e = set_pixel d x y on in
    (
      λ here. Covers-Clean e.dirty q c (set_pixel-Covers d x y on q c s w h k (inl here)) clean,
      elim (due_or_not d.dirty q c) [
        | inl due ↦
            absurd
              (Covers-Clean e.dirty q c (set_pixel-Covers d x y on q c s w h k (inr due)) clean)
        | inr was ↦ was
      ],
    )

-- The other bytes are as they were.
get_or-write_bit_ne :
    (on : Bool) (i b j : ℕ) (bytes : List ℕ)
    → i ≢ j
    → get_or (write_bit on i b bytes) j 0 ≡ get_or bytes j 0
unfolding write_bit
get_or-write_bit_ne on i b j bytes h = get_or-set_ne bytes _ 0 h

length-write_bit :
    (on : Bool) (i b : ℕ) (bytes : List ℕ) → length (write_bit on i b bytes) ≡ length bytes
unfolding write_bit
length-write_bit on i b bytes = length-set bytes i _

-- With the whole panel in RAM, the byte of page `q` and column `c` is the byte of no pixel of
-- another page or column.
other_byte :
    (d : Driver) (x r q c : ℕ)
    → HasShape d
    → x < d.config.width
    → c < d.config.width
    → r < d.config.page_buffer_pages * 8
    → q < d.config.page_buffer_pages
    → ¬ ((q ≡ r / 8) × (c ≡ x))
    → buffer_index d x r ≢ c + q % d.config.page_buffer_pages * d.config.width
unfolding buffer_index
other_byte d x r q c s hx hc hr hq ne e =
    let p = d.config.page_buffer_pages in
    let row = page_row p r (omega (arith, s.pages_in, s.total)) hr in
    let m : q % p ≡ q = mod-eq_of_lt hq in
    let k = place_eq d.config.width x (r / 8) c q hx hc (rw (← row, ← m) e) in ne (sym k.1, sym k.0)

set_pixel_bus : (d : Driver) (x y : ℤ) (on : Bool) → (set_pixel d x y on).bus ≡ d.bus
unfolding set_pixel write_pixel mark_dirty
set_pixel_bus d x y on = ground arith

set_pixel_out :
    (d : Driver) (x y : ℤ) (on : Bool) → is_in_buffer d x y ≡ false → set_pixel d x y on ≡ d
unfolding set_pixel
set_pixel_out d x y on h = ground arith

pub full_window :
    (d : Driver)
    → HasShape d
    → d.config.page_buffer_pages ≡ d.binding.total_pages
    → window_top d ≡ 0
unfolding is_page_buffer_mode
full_window d s f = ground arith

set_pixel-HasShape :
    (d : Driver) (x y : ℤ) (on : Bool)
    → HasShape d
    → is_in_buffer d x y ≡ true
    → HasShape (set_pixel d x y on)
set_pixel-HasShape d x y on s h =
    let k = set_pixel-Drawn d x y on s h in
    let r = pos_part y - window_top d in
    let l = length-write_bit on (buffer_index d (pos_part x) r) (buffer_bit r) (bytes_of d) in
    let stored : length (bytes_of (set_pixel d x y on)) ≡ length (bytes_of d) =
      ap length k.written ∙ l in
    ground arith

set_pixel-HasWindows :
    (d : Driver) (x y : ℤ) (on : Bool)
    → HasShape d
    → HasWindows d.config.width d.dirty
    → is_in_buffer d x y ≡ true
    → HasWindows d.config.width (set_pixel d x y on).dirty
set_pixel-HasWindows d x y on s w h =
    let e = write_pixel d (pos_part x) (pos_part y - window_top d) on in
    let f = write_pixel_frame d (pos_part x) (pos_part y - window_top d) on in
    let c = u8 (pos_part x) in
    let r : HasWindows e.config.width (mark_dirty e (u8 (pos_part y / 8)) c c).dirty =
      mark_dirty-HasWindows e (u8 (pos_part y / 8)) c c (rw f.3 (s.total).0) (rw f.1 (s.width_in).0)
        (rw (f.0, f.1) w) in
    rw (set_pixel_marks d x y on s h)
      (subst (λ k. HasWindows k.width (mark_dirty e (u8 (pos_part y / 8)) c c).dirty) f.1 r)

-- A byte with nothing due after the pixel is not the byte of the pixel, and the memory has it.
fresh_byte :
    (g : Gddram) (d : Driver) (x y : ℤ) (on : Bool) (q c : ℕ)
    → Prepared g d
    → is_in_buffer d x y ≡ true
    → q < d.binding.total_pages
    → c < d.config.width
    → Clean (set_pixel d x y on).dirty q c
    → (shown g d.bus.sent).ram q c
      ≡ get_or (written d x y on) (c + q % d.config.page_buffer_pages * d.config.width) 0
fresh_byte g d x y on q c m h hq hc clean =
    let s = m.shape in
    let b = buffer_row_lem d x y s h in
    let top = full_window d s m.full in
    let r = pos_part y - window_top d in
    let k = set_pixel-Clean d x y on q c s m.windows h (omega (arith, hq, s.total)) clean in
    let away : ¬ ((q ≡ r / 8) × (c ≡ pos_part x)) =
      λ (here, col). k.0 (omega (arith, here, top), col) in
    let other = other_byte d (pos_part x) r q c s b.3 hc b.1 (omega (arith, hq, m.full)) away in
    (m.shows).shows q c hq hc k.1
    ∙ sym
        (get_or-write_bit_ne on (buffer_index d (pos_part x) r) (buffer_bit r) _ (bytes_of d) other)

set_pixel-Shown :
    (g : Gddram) (d : Driver) (x y : ℤ) (on : Bool)
    → Prepared g d
    → is_in_buffer d x y ≡ true
    → Shown g (set_pixel d x y on)
set_pixel-Shown g d x y on m h =
    let k = set_pixel-Drawn d x y on m.shape h in
    record {
      shows = λ q c hq hc clean.
          let lq : q < d.binding.total_pages = omega (arith, hq, k.total_pages) in
          let lc : c < d.config.width = subst (λ f. c < f.width) k.config hc in
          rw (set_pixel_bus d x y on, k.written, k.config)
            (fresh_byte g d x y on q c m h lq lc clean);
    }

-- With a framebuffer of the whole panel that the display memory holds wherever nothing is due,
-- setting or clearing a pixel, of the panel or not, keeps this so: what is drawn is due.
pub set_pixel-Prepared :
    (g : Gddram) (d : Driver) (x y : ℤ) (on : Bool) → Prepared g d → Prepared g (set_pixel d x y on)
set_pixel-Prepared g d x y on m = elim (Bool-cases (is_in_buffer d x y)) [
  | inr out ↦ rw (set_pixel_out d x y on out) m
  | inl here ↦
      let k = set_pixel-Drawn d x y on m.shape here in
      record {
        shape = set_pixel-HasShape d x y on m.shape here;
        full = rw (k.config, k.total_pages) m.full;
        windows =
            subst (λ f. HasWindows f.width (set_pixel d x y on).dirty) (sym k.config)
              (set_pixel-HasWindows d x y on m.shape m.windows here);
        shows = set_pixel-Shown g d x y on m here;
      }
]
