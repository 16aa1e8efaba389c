-- ===== src/Gddram/Drawing/Line.antt =====
-- drawLine of src/SSD1315.cpp against the display memory.
use ssd.Common.{ℕ, zero, suc, Bool, Option, none, some, ◌≡◌, arith, Bool-cases, inl, inr, ◌&&◌}
use ssd.Common.Int.{ℤ}
use ssd.Driver.{Driver}
use ssd.Frame.Geometry.{has_buffer}
use ssd.Frame.Shapes.{eq_ℤ}
use ssd.Frame.Curves.Line.{
  Stroke, Ends, line_loop, clip_line, draw_clipped, draw_line, line_of, ends_of,
}
use ssd.Frame.Curves.Line.Stops.{draw_line_stops}
use ssd.Gddram.{Gddram}
use ssd.Gddram.Request.{Prepared}
use ssd.Gddram.Drawing.{set_pixel-Prepared}
use ssd.Gddram.Drawing.Circle.{Left, stopped-Left}

line_loop-Left :
    (g : Gddram) (fuel : ℕ) (s : Stroke) (x y err : ℤ) (d : Driver)
    → Prepared g d
    → Left g (line_loop fuel s x y err d)
unfolding line_loop
line_loop-Left g zero s x y err d m = omega arith
line_loop-Left g (suc fuel) s x y err d m =
    let e = set_pixel-Prepared g d x y s.on m in
    elim (Bool-cases (eq_ℤ x s.x1c && eq_ℤ y s.y1c)) [
      | inl here ↦ rw (here, line_loop) e
      | inr on ↦ rw (on, line_loop) (line_loop-Left g fuel s _ _ _ _ e)
    ]

clipped-Left :
    (g : Gddram) (d : Driver) (o : Option Ends) (on : Bool)
    → Prepared g d
    → Left g (elim o [ none ↦ some d | some e ↦ draw_clipped d e on ])
unfolding draw_clipped
clipped-Left g d none on m = m
clipped-Left g d (some e) on m = line_loop-Left g _ _ _ _ _ d m

line-Left :
    (g : Gddram) (d : Driver) (x0 y0 x1 y1 : ℤ) (on : Bool)
    → Prepared g d
    → Left g (draw_line d x0 y0 x1 y1 on)
unfolding draw_line
line-Left g d x0 y0 x1 y1 on m =
    let l = line_of d x0 y0 x1 y1 in
    elim (Bool-cases (has_buffer d)) [
      | inl there ↦ rw there (clipped-Left g d (clip_line 4 l (ends_of l x0 y0 x1 y1)) on m)
      | inr none_there ↦ rw none_there m
    ]

-- With a framebuffer of the whole panel that the display memory holds wherever nothing is due,
-- drawing a line comes to its end, for all endpoints, and keeps this so.
pub draw_line-Prepared :
    (g : Gddram) (d : Driver) (x0 y0 x1 y1 : ℤ) (on : Bool)
    → Prepared g d
    → (e : Driver) × (draw_line d x0 y0 x1 y1 on ≡ some e) × Prepared g e
draw_line-Prepared g d x0 y0 x1 y1 on m =
    stopped-Left g (draw_line d x0 y0 x1 y1 on) (draw_line_stops d x0 y0 x1 y1 on)
      (line-Left g d x0 y0 x1 y1 on m)
