-- ===== src/Frame/Curves/Circle/Stops.antt =====
-- The loops of drawCircle and fillCircle of src/SSD1315.cpp stop by themselves.
use ssd.Common.{
  Option, none, some, if◌then◌else◌, ℕ, zero, suc, Bool, true, false, ◌+◌, ◌≤◌, ◌≡◌, refl, arith,
  Bool-cases, inl, inr,
}
use ssd.Common.Int.{ℤ, pos, pos_part, neg_part, ◌+ℤ◌, ◌-ℤ◌, ◌*ℤ◌, ltb_ℤ, leb_ℤ, +ℤ_parts, -ℤ_parts}
use ssd.Driver.{Driver}
use ssd.Frame.Curves.Circle.{
  Center, circle_loop, circle, plot_octants, fill_octants, draw_circle, fill_circle,
}

abbrev pub has_stopped : Option Driver → Bool
has_stopped none = false
has_stopped (some d) = true

measure_falls :
    (fuel : ℕ) (x y : ℤ) (shrinks : Bool)
    → pos_part x + neg_part y + 2 ≤ suc fuel + pos_part y + neg_part x
    → leb_ℤ y x ≡ true
    → let y1 = y +ℤ pos 1 in
      let x1 = if shrinks then x -ℤ pos 1 else x in
      (1 ≤ fuel) × (pos_part x1 + neg_part y1 + 2 ≤ fuel + pos_part y1 + neg_part x1)
measure_falls fuel x y shrinks k on = ground (arith, +ℤ_parts y (pos 1), -ℤ_parts x (pos 1))

-- The rounds that are left are no more than `x - y + 1`.
circle_loop_stops :
    (fuel : ℕ) (round : ℤ → ℤ → Driver → Driver) (x y err : ℤ) (d : Driver)
    → 1 ≤ fuel
    → pos_part x + neg_part y + 2 ≤ fuel + pos_part y + neg_part x
    → has_stopped (circle_loop fuel round x y err d) ≡ true
unfolding circle_loop
circle_loop_stops zero round x y err d h k = absurd (omega arith)
circle_loop_stops (suc fuel) round x y err d h k = elim (Bool-cases (leb_ℤ y x)) [
  | inr over ↦ rw (over, circle_loop) refl
  | inl on ↦
      let y1 = y +ℤ pos 1 in
      let err1 = err +ℤ (pos 1 +ℤ pos 2 *ℤ y1) in
      let shrinks = ltb_ℤ (pos 0) (pos 2 *ℤ (err1 -ℤ x) +ℤ pos 1) in
      let x1 = if shrinks then x -ℤ pos 1 else x in
      let err2 = if shrinks then err1 +ℤ (pos 1 -ℤ pos 2 *ℤ x1) else err1 in
      let fits = measure_falls fuel x y shrinks k on in
      rw (on, circle_loop) (circle_loop_stops fuel round x1 y1 err2 (round x y d) fits.0 fits.1)
]

circle_stops :
    (round : Bool → Center → ℤ → ℤ → Driver → Driver) (d : Driver) (cx cy r : ℤ) (on : Bool)
    → has_stopped (circle round d cx cy r on) ≡ true
unfolding circle
circle_stops round d cx cy r on =
    let k =
      circle_loop_stops (pos_part r + 2) (round on (record { cx = cx; cy = cy })) r (pos 0) (pos 0)
        d (omega arith) (omega arith) in
    ground (arith, k)

-- Drawing a circle and filling one come to their end, for every radius and every driver.
pub draw_circle_stops :
    (d : Driver) (cx cy r : ℤ) (on : Bool)
    → (has_stopped (draw_circle d cx cy r on) ≡ true)
      × (has_stopped (fill_circle d cx cy r on) ≡ true)
unfolding draw_circle fill_circle
draw_circle_stops d cx cy r on =
    (circle_stops plot_octants d cx cy r on, circle_stops fill_octants d cx cy r on)
