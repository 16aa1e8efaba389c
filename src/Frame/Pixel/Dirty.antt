-- ===== src/Frame/Pixel/Dirty.antt =====
-- A drawn pixel of src/SSD1315.cpp is marked for the next flush.
use ssd.Common.{ℕ, Bool, true, ◌/◌, ◌-◌, ◌≤◌, ◌<◌, ◌≡◌, ◌⊎◌, inl, inr, ◌∙◌, arith, u8}
use ssd.Common.Int.{ℤ, pos_part}
use ssd.Driver.{Driver}
use ssd.Frame.Geometry.{is_in_buffer, is_page_buffer_mode, has_buffer}
use ssd.Frame.Bounds.{HasShape, buffer_row_lem, window_top}
use ssd.Frame.Dirty.{mark_dirty, in_window}
use ssd.Frame.Dirty.Cover.{HasWindows, Covers, mark_dirty-Covers}
use ssd.Frame.Pixel.{write_pixel, set_pixel}

pub write_pixel_frame :
    (d : Driver) (x r : ℕ) (on : Bool)
    → let e = write_pixel d x r on in
      (e.dirty ≡ d.dirty)
      × (e.config ≡ d.config)
      × (e.paging ≡ d.paging)
      × (e.binding.total_pages ≡ d.binding.total_pages)
      × (e.binding.attached ≡ d.binding.attached)
unfolding write_pixel
write_pixel_frame d x r on = ground arith

in_buffer_window :
    (d : Driver) (x y : ℤ)
    → is_in_buffer d x y ≡ true
    → (in_window d (u8 (pos_part y / 8)) ≡ true) × (has_buffer d ≡ true)
unfolding is_in_buffer
in_buffer_window d x y h = ground arith

same_window :
    (d e : Driver) (p : ℕ)
    → e.config ≡ d.config
    → e.paging ≡ d.paging
    → e.binding.total_pages ≡ d.binding.total_pages
    → e.binding.attached ≡ d.binding.attached
    → in_window e p ≡ in_window d p
unfolding is_page_buffer_mode
same_window d e p a b c f = ground arith

pub set_pixel_marks :
    (d : Driver) (x y : ℤ) (on : Bool)
    → HasShape d
    → is_in_buffer d x y ≡ true
    → set_pixel d x y on
      ≡ mark_dirty
          (write_pixel d (pos_part x) (pos_part y - window_top d) on)
          (u8 (pos_part y / 8))
          (u8 (pos_part x))
          (u8 (pos_part x))
unfolding set_pixel
set_pixel_marks d x y on s h = ground (arith, buffer_row_lem d x y s h, in_buffer_window d x y h)

-- On a well-shaped driver whose dirty windows are in order, setting or clearing a pixel of the RAM
-- window marks its page and column, and unmarks nothing.
pub set_pixel-Covers :
    (d : Driver) (x y : ℤ) (on : Bool) (q c : ℕ)
    → HasShape d
    → HasWindows d.config.width d.dirty
    → is_in_buffer d x y ≡ true
    → q < 8
    → (q ≡ pos_part y / 8) × (c ≡ pos_part x) ⊎ Covers d.dirty q c
    → Covers (set_pixel d x y on).dirty q c
set_pixel-Covers d x y on q c s w h k m =
    let r = pos_part y - window_top d in
    let e = write_pixel d (pos_part x) r on in
    let f = write_pixel_frame d (pos_part x) r on in
    let b = buffer_row_lem d x y s h in
    let p = u8 (pos_part y / 8) in
    let i = same_window d e p f.1 f.2 f.3 f.4 in
    let v = in_buffer_window d x y h in
    let old : (p ≡ q) × (u8 (pos_part x) ≤ c) × (c ≤ u8 (pos_part x)) ⊎ Covers e.dirty q c =
      elim m [
        | inl here ↦ inl (
          omega (arith, here, b, s.total),
          omega (arith, here, b, s.width_in),
          omega (arith, here, b, s.width_in),
        )
        | inr there ↦ inr (rw f.0 there)
      ] in
    rw (set_pixel_marks d x y on s h) (
      mark_dirty-Covers e p (u8 (pos_part x)) (u8 (pos_part x)) q c
        (record {
          windows = rw (f.0, f.1) w;
          page_in = omega (arith, s.total, f.3, b);
          in_ram = i ∙ v.0;
          columns =
              let lt : pos_part x < e.config.width = rw f.1 b.3 in
              omega (arith, lt, s.width_in, b.3);
        })
        k old)
