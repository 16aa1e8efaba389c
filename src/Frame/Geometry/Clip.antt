-- ===== src/Frame/Geometry/Clip.antt =====
-- _clipRect of src/SSD1315.cpp is the intersection of a rectangle with the panel.
use ssd.Common.{
  ℕ, Bool, true, false, none, some, Option, ◌+◌, ◌≤◌, ◌<◌, ◌≡◌, ◌↔◌, ◌⊎◌, ◌||◌, inl, inr,
  Bool-cases, arith,
}
use ssd.Common.Int.{ℤ, pos, pos_part, neg_part, leb_ℤ, ◌+ℤ◌, +ℤ_parts, -ℤ_parts}
use ssd.Driver.{Driver}
use ssd.Frame.Geometry.{Rect, clip_rect, clamp_low, clamp_high, last_of}

-- The pixel lies in the clipped rectangle, if there is one.
abbrev pub Holds : Option Rect → ℕ → ℕ → Type 0
Holds none px py = ⊥
Holds (some r) px py = (r.x0 ≤ px) × (px ≤ r.x1) × (r.y0 ≤ py) × (py ≤ r.y1)

-- The number lies in the span of `extent` that begins at `v`, over integers.
pub record InSpan (v extent : ℤ) (p : ℕ) : Type 0 where
  pub low : pos_part v ≤ p + neg_part v
  pub high : p + neg_part v + neg_part extent < pos_part v + pos_part extent

last_of_parts :
    (v e : ℤ)
    → pos_part (last_of v e) + neg_part v + neg_part e + 1
      ≡ neg_part (last_of v e) + pos_part v + pos_part e
last_of_parts v e = omega (arith, +ℤ_parts v e, -ℤ_parts (v +ℤ e) (pos 1))

clamp_high_parts :
    (limit : ℕ) (v : ℤ)
    → 1 ≤ limit
    → (leb_ℤ (pos limit) v ≡ true)
        × (pos_part (clamp_high limit v) + 1 ≡ limit)
        × (neg_part (clamp_high limit v) ≡ 0)
      ⊎ (leb_ℤ (pos limit) v ≡ false) × (clamp_high limit v ≡ v)
unfolding clamp_high
clamp_high_parts limit v h = ground (arith, -ℤ_parts (pos limit) (pos 1))

-- The clipped bounds along one axis.
axis_iff :
    (limit : ℕ) (v e : ℤ) (p : ℕ)
    → 1 ≤ limit
    → (leb_ℤ e (pos 0) ≡ false)
    → let lo = clamp_low v in
      let hi = clamp_high limit (last_of v e) in
      ((leb_ℤ lo hi ≡ true) × (pos_part lo ≤ p) × (p ≤ pos_part hi)) ↔ ((p < limit) × InSpan v e p)
axis_iff limit v e p h he =
    let l = last_of_parts v e in
    let c = clamp_high_parts limit (last_of v e) h in (λ q. ground arith, λ q. ground arith)

two_false : (a b : Bool) → (a || b) ≡ false → (a ≡ false) × (b ≡ false)
two_false a b h = ground arith

-- On an attached panel of at least one column and one row, a pixel is in the clipped rectangle
-- exactly when it is on the panel and in the rectangle asked for, whatever the signs.
pub clip_rect_iff :
    (d : Driver) (x y w h : ℤ) (px py : ℕ)
    → d.binding.attached ≡ true
    → 1 ≤ d.config.width
    → 1 ≤ d.config.height
    → Holds (clip_rect d x y w h) px py
      ↔ (((px < d.config.width) × InSpan x w px) × (py < d.config.height) × InSpan y h py)
unfolding clip_rect
clip_rect_iff d x y w h px py a p q = elim (Bool-cases (leb_ℤ w (pos 0) || leb_ℤ h (pos 0))) [
  | inl none_left ↦ (λ r. ground arith, λ r. ground arith)
  | inr some_left ↦
      let (has_w, has_h) = two_false _ _ some_left in
      let ax = axis_iff d.config.width x w px p has_w in
      let ay = axis_iff d.config.height y h py q has_h in
      (λ r. ground (arith, ax, ay), λ r. ground (arith, ax, ay))
]
