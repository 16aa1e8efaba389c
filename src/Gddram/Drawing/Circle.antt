-- ===== src/Gddram/Drawing/Circle.antt =====
-- drawCircle of src/SSD1315.cpp against the display memory.
use ssd.Common.{
  ℕ, zero, suc, Bool, true, Option, none, some, ◌+◌, ◌≤◌, ◌≡◌, refl, arith, Bool-cases, inl, inr,
  not, ◌||◌,
}
use ssd.Common.Int.{ℤ, pos, pos_part, ◌+ℤ◌, ◌-ℤ◌, ltb_ℤ, leb_ℤ}
use ssd.Driver.{Driver}
use ssd.Frame.Geometry.{has_buffer}
use ssd.Frame.Shapes.{eq_ℤ}
use ssd.Frame.Curves.Circle.{
  Center, plot_if_visible, plot_octants, circle_loop, circle, draw_circle,
}
use ssd.Frame.Curves.Circle.Stops.{has_stopped, draw_circle_stops}
use ssd.Gddram.{Gddram}
use ssd.Gddram.Request.{Prepared}
use ssd.Gddram.Drawing.{set_pixel-Prepared}

-- What a loop that came to its end left.
abbrev pub Left : Gddram → Option Driver → Type 0
Left g none = 0 ≤ 0
Left g (some e) = Prepared g e

plot_if_visible-Prepared :
    (g : Gddram) (on : Bool) (x y : ℤ) (d : Driver)
    → Prepared g d
    → Prepared g (plot_if_visible on x y d)
unfolding plot_if_visible
plot_if_visible-Prepared g on x y d m =
    elim (Bool-cases (
      ltb_ℤ x (pos 0)
      || ltb_ℤ y (pos 0)
      || leb_ℤ (pos d.config.width) x
      || leb_ℤ (pos d.config.height) y)) [
        | inl out ↦ rw out m
        | inr visible ↦ rw visible (set_pixel-Prepared g d x y on m)
      ]

plot_octants-Prepared :
    (g : Gddram) (on : Bool) (c : Center) (x y : ℤ) (d : Driver)
    → Prepared g d
    → Prepared g (plot_octants on c x y d)
unfolding plot_octants
plot_octants-Prepared g on c x y d m =
    let plot : (v w : ℤ) (e : Driver) → Prepared g e → Prepared g (plot_if_visible on v w e) =
      plot_if_visible-Prepared g on in
    plot _ _ _
      (plot _ _ _ (plot _ _ _ (plot _ _ _ (plot _ _ _ (plot _ _ _ (plot _ _ _ (plot _ _ _ m)))))))

circle_loop-Left :
    (g : Gddram) (fuel : ℕ) (on : Bool) (c : Center) (x y err : ℤ) (d : Driver)
    → Prepared g d
    → Left g (circle_loop fuel (plot_octants on c) x y err d)
unfolding circle_loop
circle_loop-Left g zero on c x y err d m = omega arith
circle_loop-Left g (suc fuel) on c x y err d m = elim (Bool-cases (leb_ℤ y x)) [
  | inr over ↦ rw (over, circle_loop) m
  | inl going ↦
      rw (going, circle_loop)
        (circle_loop-Left g fuel on c _ _ _ (plot_octants on c x y d)
          (plot_octants-Prepared g on c x y d m))
]

circle-Left :
    (g : Gddram) (d : Driver) (cx cy r : ℤ) (on : Bool)
    → Prepared g d
    → Left g (draw_circle d cx cy r on)
unfolding draw_circle circle
circle-Left g d cx cy r on m =
    let c : Center = record { cx = cx; cy = cy } in
    let k = circle_loop-Left g (pos_part r + 2) on c r (pos 0) (pos 0) d m in
    let p = set_pixel-Prepared g d cx cy on m in
    elim (Bool-cases (not (has_buffer d) || ltb_ℤ r (pos 0))) [
      | inl refused ↦ rw refused m
      | inr drawn ↦ rw drawn (elim (Bool-cases (eq_ℤ r (pos 0))) [
        | inl point ↦ rw point p
        | inr round ↦
            rw round
              (elim (Bool-cases (
                ltb_ℤ (cx +ℤ r) (pos 0)
                || ltb_ℤ (cy +ℤ r) (pos 0)
                || leb_ℤ (pos d.config.width) (cx -ℤ r)
                || leb_ℤ (pos d.config.height) (cy -ℤ r))) [
                  | inl off ↦ rw off m
                  | inr seen ↦ rw seen k
                ])
      ])
    ]

pub stopped-Left :
    (g : Gddram) (o : Option Driver)
    → has_stopped o ≡ true
    → Left g o
    → (e : Driver) × (o ≡ some e) × Prepared g e
stopped-Left g none h m = absurd (ground (arith, h))
stopped-Left g (some e) h m = (e, refl, m)

-- With a framebuffer of the whole panel that the display memory holds wherever nothing is due,
-- drawing a circle comes to its end, for every center and radius, and keeps this so.
pub draw_circle-Prepared :
    (g : Gddram) (d : Driver) (cx cy r : ℤ) (on : Bool)
    → Prepared g d
    → (e : Driver) × (draw_circle d cx cy r on ≡ some e) × Prepared g e
draw_circle-Prepared g d cx cy r on m =
    stopped-Left g (draw_circle d cx cy r on) (draw_circle_stops d cx cy r on).0
      (circle-Left g d cx cy r on m)
