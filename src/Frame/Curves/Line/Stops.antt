-- ===== src/Frame/Curves/Line/Stops.antt =====
-- The loop of drawLine of src/SSD1315.cpp stops by itself: what is left of the line, in columns and
-- rows, falls with every pixel.
use ssd.Common.{
  ℕ, zero, suc, Bool, true, false, Option, none, some, ◌+◌, ◌*◌, ◌≤◌, ◌≡◌, inl, inr, refl, arith,
  Bool-cases, if◌then◌else◌, ◌&&◌,
}
use ssd.Common.Int.{ℤ, pos, negsuc, pos_part, neg_part, ◌+ℤ◌, ◌-ℤ◌, ltb_ℤ, -ℤ_parts}
use ssd.Driver.{Driver}
use ssd.Frame.Shapes.{eq_ℤ}
use ssd.Frame.Pixel.{set_pixel}
use ssd.Frame.Curves.Line.{
  Stroke, Ends, line_loop, draw_clipped, draw_line, clip_line, line_of, ends_of,
}
use ssd.Frame.Curves.Circle.Stops.{has_stopped}
use ssd.Frame.Curves.Line.Steps.{
  Toward, Band, OnLine, steps_x, steps_y, GoesX, GoesY, steps_x_lem, steps_y_lem, no_column, no_row,
  some_step, Toward-here, step_both, step_column, step_row,
}

-- A place on the line, with fuel for what is left of it.
record Ahead (s : Stroke) (fuel : ℕ) (x y err : ℤ) : Type 0 where
  pub u : ℕ
  pub v : ℕ
  pub on_line : OnLine s u v x y err
  pub enough : u + v + 1 ≤ fuel

abbrev at_end : Stroke → ℤ → ℤ → Bool
at_end s x y = eq_ℤ x s.x1c && eq_ℤ y s.y1c

not_over :
    (s : Stroke) (u v : ℕ) (x y err : ℤ) → OnLine s u v x y err → at_end s x y ≡ false → 1 ≤ u + v
not_over s zero zero x y err o h =
    absurd (ground (arith, h, Toward-here s.sx x s.x1c o.column, Toward-here s.sy y s.y1c o.row))
not_over s zero (suc v) x y err o h = omega arith
not_over s (suc u) v x y err o h = omega arith

step_both-Ahead :
    (s : Stroke) (u v fuel : ℕ) (x y err : ℤ)
    → OnLine s u v x y err
    → u + v ≤ fuel
    → 1 ≤ u + v
    → GoesX s.dx s.dy (u * s.dy) (v * s.dx)
    → GoesY s.dx s.dy (u * s.dy) (v * s.dx)
    → Ahead s fuel (x +ℤ s.sx) (y +ℤ s.sy) (err -ℤ pos s.dy +ℤ pos s.dx)
step_both-Ahead s zero v fuel x y err o h c k l =
    absurd (omega (arith, c, no_column s.dx s.dy v (o.within).1 o.band k))
step_both-Ahead s (suc n) zero fuel x y err o h c k l =
    absurd (omega (arith, no_row s.dx s.dy (suc n) (o.within).0 o.band l))
step_both-Ahead s (suc n) (suc m) fuel x y err o h c k l = record {
  u = n;
  v = m;
  on_line = step_both s n m x y err o k l;
  enough = omega (arith, h);
}

step_column-Ahead :
    (s : Stroke) (u v fuel : ℕ) (x y err : ℤ)
    → OnLine s u v x y err
    → u + v ≤ fuel
    → 1 ≤ u + v
    → GoesX s.dx s.dy (u * s.dy) (v * s.dx)
    → ¬ GoesY s.dx s.dy (u * s.dy) (v * s.dx)
    → Ahead s fuel (x +ℤ s.sx) y (err -ℤ pos s.dy)
step_column-Ahead s zero v fuel x y err o h c k l =
    absurd (omega (arith, c, no_column s.dx s.dy v (o.within).1 o.band k))
step_column-Ahead s (suc n) v fuel x y err o h c k l = record {
  u = n;
  v = v;
  on_line = step_column s n v x y err o k l;
  enough = omega (arith, h);
}

step_row-Ahead :
    (s : Stroke) (u v fuel : ℕ) (x y err : ℤ)
    → OnLine s u v x y err
    → u + v ≤ fuel
    → 1 ≤ u + v
    → ¬ GoesX s.dx s.dy (u * s.dy) (v * s.dx)
    → GoesY s.dx s.dy (u * s.dy) (v * s.dx)
    → Ahead s fuel x (y +ℤ s.sy) (err +ℤ pos s.dx)
step_row-Ahead s u zero fuel x y err o h c k l =
    absurd (omega (arith, c, no_row s.dx s.dy u (o.within).0 o.band l))
step_row-Ahead s u (suc m) fuel x y err o h c k l = record {
  u = u;
  v = m;
  on_line = step_row s u m x y err o k l;
  enough = omega (arith, h);
}

-- The round behind the test for the end.
advance :
    (s : Stroke) (fuel : ℕ) (x y err : ℤ)
    → Ahead s (suc fuel) x y err
    → at_end s x y ≡ false
    → let err1 = if steps_x s err then err -ℤ pos s.dy else err in
      Ahead s fuel
        (if steps_x s err then x +ℤ s.sx else x)
        (if steps_y s err then y +ℤ s.sy else y)
        (if steps_y s err then err1 +ℤ pos s.dx else err1)
advance s fuel x y err a h =
    let o = a.on_line in
    let c = not_over s a.u a.v x y err o h in
    let f : a.u + a.v ≤ fuel = omega (arith, a.enough) in
    let gx = steps_x_lem s a.u a.v x y err o in
    let gy = steps_y_lem s a.u a.v x y err o in
    let goes = some_step s.dx s.dy a.u a.v o.within o.band c in
    elim (Bool-cases (steps_x s err)) [
      | inl bx ↦ elim (Bool-cases (steps_y s err)) [
        | inl by ↦
            rw (bx, by)
              (step_both-Ahead s a.u a.v fuel x y err o f c (ground (arith, bx, gx))
                (ground (arith, by, gy)))
        | inr by ↦
            rw (bx, by)
              (step_column-Ahead s a.u a.v fuel x y err o f c (ground (arith, bx, gx))
                (ground (arith, by, gy)))
      ]
      | inr bx ↦ elim (Bool-cases (steps_y s err)) [
        | inl by ↦
            rw (bx, by)
              (step_row-Ahead s a.u a.v fuel x y err o f c (ground (arith, bx, gx))
                (ground (arith, by, gy)))
        | inr by ↦ absurd (ground (arith, bx, by, gx, gy, goes))
      ]
    ]

line_loop_stops :
    (fuel : ℕ) (s : Stroke) (x y err : ℤ) (d : Driver)
    → Ahead s fuel x y err
    → has_stopped (line_loop fuel s x y err d) ≡ true
unfolding line_loop
line_loop_stops zero s x y err d a = absurd (omega (arith, a.enough))
line_loop_stops (suc fuel) s x y err d a = elim (Bool-cases (at_end s x y)) [
  | inl here ↦ rw (here, line_loop) refl
  | inr on ↦
      rw (on, line_loop)
        (line_loop_stops fuel s _ _ _ (set_pixel d x y s.on) (advance s fuel x y err a on))
]

-- Two ends, and the steps from one to the other.
Toward-start :
    (x t : ℤ)
    → let r = t -ℤ x in Toward (if ltb_ℤ x t then pos 1 else negsuc 0) x t (pos_part r + neg_part r)
Toward-start x t = ground (arith, -ℤ_parts t x)

Band-start : (dx dy : ℕ) → Band dx dy (dx * dy) (dy * dx)
Band-start dx dy = grind arith

error_start :
    (a b : ℕ) → pos_part (pos a -ℤ pos b) + b + b * a ≡ neg_part (pos a -ℤ pos b) + a + a * b
error_start a b = let k = -ℤ_parts (pos a) (pos b) in grind (arith, k)

draw_clipped_stops : (d : Driver) (e : Ends) (on : Bool) → has_stopped (draw_clipped d e on) ≡ true
unfolding draw_clipped
draw_clipped_stops d e on = line_loop_stops _ _ e.x0c e.y0c _ d (record {
  u = _;
  v = _;
  on_line = record {
    column = Toward-start e.x0c e.x1c;
    row = Toward-start e.y0c e.y1c;
    within = (omega arith, omega arith);
    band = Band-start _ _;
    error = error_start _ _;
  };
  enough = omega arith;
})

clipped_stops :
    (d : Driver) (o : Option Ends) (on : Bool)
    → has_stopped (elim o [ none ↦ some d | some e ↦ draw_clipped d e on ]) ≡ true
clipped_stops d none on = refl
clipped_stops d (some e) on = draw_clipped_stops d e on

-- Drawing a line comes to its end, for all endpoints and every driver.
pub draw_line_stops :
    (d : Driver) (x0 y0 x1 y1 : ℤ) (on : Bool) → has_stopped (draw_line d x0 y0 x1 y1 on) ≡ true
unfolding draw_line
draw_line_stops d x0 y0 x1 y1 on =
    let l = line_of d x0 y0 x1 y1 in
    let k = clipped_stops d (clip_line 4 l (ends_of l x0 y0 x1 y1)) on in ground (arith, k)
