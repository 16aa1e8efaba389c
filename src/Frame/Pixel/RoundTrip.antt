-- ===== src/Frame/Pixel/RoundTrip.antt =====
-- setPixel and getPixel of src/SSD1315.cpp.
use ssd.Common.{
  ℕ, suc, Bool, true, false, ◌+◌, ◌-◌, ◌*◌, ◌/◌, ◌%◌, ◌≤◌, ◌<◌, ◌≡◌, ap, refl, sym, ◌∙◌, arith,
  List, get_or, Bool-cases, inl, inr, ltb, u8, has_bit,
}
use native.Mathlib.Nat.{mul-le-mul_right, mod-eq_of_lt}
use ssd.Common.Int.{ℤ, pos_part}
use ssd.Driver.{Driver}
use ssd.Config.Validate.{is_some}
use ssd.Frame.Geometry.{
  buffer_index, buffer_row, buffer_bit, has_buffer, is_in_buffer, is_page_buffer_mode,
  page_buffer_y_offset,
}
use ssd.Frame.Dirty.{mark_dirty}
use ssd.Traffic.Quiet.{OnlyDirty}
use ssd.Frame.Bounds.{HasShape, buffer_index-lt, buffer_row_lem, window_top}
use ssd.Frame.Pixel.{bytes_of, write_bit, write_pixel, set_pixel, get_pixel}
use ssd.Frame.Pixel.Bytes.{IsBytes, has_bit-write_bit}

pub place_eq : (w x r x' r' : ℕ) → x < w → x' < w → x + r * w ≡ x' + r' * w → (x ≡ x') × (r ≡ r')
place_eq w x r x' r' hx hx' e =
    let up : r < r' → suc r * w ≤ r' * w = λ h. mul-le-mul_right w h in
    let down : r' < r → suc r' * w ≤ r * w = λ h. mul-le-mul_right w h in
    let same : r ≡ r' = elim (Bool-cases (ltb r r')) [
      | inl lt ↦ absurd (grind (arith, up (ground arith)))
      | inr ge ↦ elim (Bool-cases (ltb r' r)) [
        | inl gt ↦ absurd (grind (arith, down (ground arith)))
        | inr le ↦ ground arith
      ]
    ] in
    (grind (arith, same), same)

pub page_row : (p y : ℕ) → p ≤ 8 → y < p * 8 → u8 (y / 8 % p) ≡ y / 8
page_row p y h k = let m : y / 8 % p ≡ y / 8 = mod-eq_of_lt (omega arith) in rw m (omega arith)

-- Two pixels share a byte only if they share the column and the page.
same_byte :
    (d : Driver) (x y x' y' : ℕ)
    → HasShape d
    → x < d.config.width
    → x' < d.config.width
    → y < d.config.page_buffer_pages * 8
    → y' < d.config.page_buffer_pages * 8
    → (buffer_index d x y ≡ buffer_index d x' y')
    → (x ≡ x') × (y / 8 ≡ y' / 8)
unfolding buffer_index
same_byte d x y x' y' s hx hx' hy hy' e =
    let p = d.config.page_buffer_pages in
    let r = page_row p y (omega (arith, s.pages_in, s.total)) hy in
    let r' = page_row p y' (omega (arith, s.pages_in, s.total)) hy' in
    place_eq d.config.width x (y / 8) x' (y' / 8) hx hx' (rw (← r, ← r') e)

pub mark_dirty-OnlyDirty : (d : Driver) (p a b : ℕ) → OnlyDirty d (mark_dirty d p a b)
unfolding mark_dirty
mark_dirty-OnlyDirty d p a b = ground arith

-- What drawing leaves alone, and the bytes that it leaves.
pub record Drawn (bytes : List ℕ) (d e : Driver) : Type 0 where
  pub config : e.config ≡ d.config
  pub paging : e.paging ≡ d.paging
  pub attached : e.binding.attached ≡ d.binding.attached
  pub total_pages : e.binding.total_pages ≡ d.binding.total_pages
  pub present : is_some e.binding.buffer ≡ is_some d.binding.buffer
  pub written : bytes_of e ≡ bytes

abbrev pub written : Driver → ℤ → ℤ → Bool → List ℕ
written d x y on =
    let r = pos_part y - window_top d in
    write_bit on (buffer_index d (pos_part x) r) (buffer_bit r) (bytes_of d)

write_pixel-Drawn :
    (d : Driver) (x r : ℕ) (on : Bool)
    → is_some d.binding.buffer ≡ true
    → Drawn (write_bit on (buffer_index d x r) (buffer_bit r) (bytes_of d)) d (write_pixel d x r on)
unfolding write_pixel
write_pixel-Drawn d x r on h = ground arith

in_buffer_present : (d : Driver) (x y : ℤ) → is_in_buffer d x y ≡ true → has_buffer d ≡ true
unfolding is_in_buffer
in_buffer_present d x y h = ground arith

pub set_pixel-Drawn :
    (d : Driver) (x y : ℤ) (on : Bool)
    → HasShape d
    → is_in_buffer d x y ≡ true
    → Drawn (written d x y on) d (set_pixel d x y on)
unfolding set_pixel
set_pixel-Drawn d x y on s h =
    let r = pos_part y - window_top d in
    ground (
      arith,
      in_buffer_present d x y h,
      buffer_row_lem d x y s h,
      write_pixel-Drawn d (pos_part x) r on,
      mark_dirty-OnlyDirty (write_pixel d (pos_part x) r on) (u8 (pos_part y / 8)) (u8 (pos_part x))
          (u8 (pos_part x)),
    )

same_view :
    {bytes : List ℕ} (d e : Driver) (x y : ℤ)
    → Drawn bytes d e
    → (is_in_buffer e x y ≡ is_in_buffer d x y)
      × (buffer_row e y ≡ buffer_row d y)
      × (has_buffer e ≡ has_buffer d)
unfolding is_in_buffer buffer_row is_page_buffer_mode page_buffer_y_offset
same_view d e x y c = ground arith

same_index :
    {bytes : List ℕ} (d e : Driver) (x r : ℕ)
    → Drawn bytes d e
    → buffer_index e x r ≡ buffer_index d x r
unfolding buffer_index
same_index d e x r c = ground arith

-- A pixel that is not in the buffer reads as off.
get_pixel_out : (d : Driver) (x y : ℤ) → is_in_buffer d x y ≡ false → get_pixel d x y ≡ false
unfolding get_pixel
get_pixel_out d x y h = ground arith

get_pixel_in :
    (d : Driver) (x y : ℤ)
    → HasShape d
    → is_in_buffer d x y ≡ true
    → let r = pos_part y - window_top d in
      get_pixel d x y
      ≡ has_bit (get_or (bytes_of d) (buffer_index d (pos_part x) r) 0) (buffer_bit r)
unfolding get_pixel
get_pixel_in d x y s h = ground (arith, in_buffer_present d x y h, buffer_row_lem d x y s h)

get_pixel-Drawn :
    {bytes : List ℕ} (d e : Driver) (x y : ℤ)
    → HasShape d
    → Drawn bytes d e
    → is_in_buffer d x y ≡ true
    → let r = pos_part y - window_top d in
      get_pixel e x y ≡ has_bit (get_or bytes (buffer_index d (pos_part x) r) 0) (buffer_bit r)
unfolding get_pixel
get_pixel-Drawn d e x y s c h =
    let r = pos_part y - window_top d in
    ground (
      arith,
      in_buffer_present d x y h,
      buffer_row_lem d x y s h,
      same_view d e x y c,
      same_index d e (pos_part x) r c,
    )

-- Rows of one page at one bit are one row.
row_eq : (r r' : ℕ) → r / 8 ≡ r' / 8 → r % 8 ≡ r' % 8 → r ≡ r'
row_eq r r' p q = omega arith

set_pixel-get_pixel_at :
    (d : Driver) (x y x' y' : ℤ) (on : Bool)
    → HasShape d
    → IsBytes (bytes_of d)
    → is_in_buffer d x y ≡ true
    → is_in_buffer d x' y' ≡ true
    → ((x' ≡ x) × (y' ≡ y) → get_pixel (set_pixel d x y on) x' y' ≡ on)
      × (¬ ((x' ≡ x) × (y' ≡ y)) → get_pixel (set_pixel d x y on) x' y' ≡ get_pixel d x' y')
set_pixel-get_pixel_at d x y x' y' on s k h h' =
    let t = window_top d in
    let r = pos_part y - t in
    let r' = pos_part y' - t in
    let i = buffer_index d (pos_part x) r in
    let i' = buffer_index d (pos_part x') r' in
    let q = buffer_row_lem d x y s h in
    let q' = buffer_row_lem d x' y' s h' in
    let bit =
      has_bit-write_bit on i (buffer_bit r) (bytes_of d) i' (buffer_bit r') k
        (buffer_index-lt d (pos_part x) r s q.3) (omega arith) (omega arith) in
    let after = get_pixel-Drawn d (set_pixel d x y on) x' y' s (set_pixel-Drawn d x y on s h) h' in
    let before = get_pixel_in d x' y' s h' in
    let same : i ≡ i' → (pos_part x ≡ pos_part x') × (r / 8 ≡ r' / 8) =
      same_byte d (pos_part x) r (pos_part x') r' s q.3 q'.3 q.1 q'.1 in
    (
      λ (ex, ey).
          (let er : r' ≡ r = ap (λ v. pos_part v - t) ey in
            let ei : i' ≡ i = rw (ap pos_part ex, er) in ground arith),
      λ ne. ground arith,
    )

-- On a well-shaped driver, a pixel of the RAM window that is set or cleared reads back as such.
pub set_pixel-get_pixel :
    (d : Driver) (x y : ℤ) (on : Bool)
    → HasShape d
    → IsBytes (bytes_of d)
    → is_in_buffer d x y ≡ true
    → get_pixel (set_pixel d x y on) x y ≡ on
set_pixel-get_pixel d x y on s k h = (set_pixel-get_pixel_at d x y x y on s k h h).0 (refl, refl)

-- On a well-shaped driver, setting or clearing a pixel of the RAM window changes how no other pixel reads.
pub set_pixel-get_pixel_ne :
    (d : Driver) (x y x' y' : ℤ) (on : Bool)
    → HasShape d
    → IsBytes (bytes_of d)
    → is_in_buffer d x y ≡ true
    → ¬ ((x' ≡ x) × (y' ≡ y))
    → get_pixel (set_pixel d x y on) x' y' ≡ get_pixel d x' y'
set_pixel-get_pixel_ne d x y x' y' on s k h ne = elim (Bool-cases (is_in_buffer d x' y')) [
  | inl there ↦ (set_pixel-get_pixel_at d x y x' y' on s k h there).1 ne
  | inr away ↦
      let e = set_pixel d x y on in
      let view = same_view d e x' y' (set_pixel-Drawn d x y on s h) in
      get_pixel_out e x' y' (view.0 ∙ away) ∙ sym (get_pixel_out d x' y' away)
]
