-- ===== src/Frame/Curves/Line.antt =====
-- outCode, divideRoundNearest and drawLine of src/SSD1315.cpp. The 32-bit values of the source stay
-- far from their limits for 16-bit arguments, and what is drawn lies on the panel, so its casts
-- change nothing.
pub mod Steps
pub mod Stops
use mathlib.Core.Option
use ssd.Common.{
  ℕ, zero, suc, Bool, true, false, Option, none, some, ◌+◌, ◌/◌, ◌==◌, not, ◌&&◌, xor,
  if◌then◌else◌, bit_and, bit_or,
}
use ssd.Common.Int.{ℤ, pos, negsuc, pos_part, neg_part, sub_ℕ, ◌+ℤ◌, ◌-ℤ◌, ◌*ℤ◌, ltb_ℤ}
use ssd.Driver.{Driver}
use ssd.Frame.Geometry.{has_buffer}
use ssd.Frame.Pixel.{set_pixel}
use ssd.Frame.Shapes.{eq_ℤ}

infixl 70 ◌/ℤ◌
-- OUT_LEFT, OUT_RIGHT, OUT_TOP and OUT_BOTTOM
abbrev pub out_left : ℕ
out_left = 1

abbrev pub out_right : ℕ
out_right = 2

abbrev pub out_top : ℕ
out_top = 4

abbrev pub out_bottom : ℕ
out_bottom = 8

unfoldable pub out_code : ℤ → ℤ → ℤ → ℤ → ℤ → ℤ → ℕ
out_code x y x_min y_min x_max y_max =
    bit_or (if ltb_ℤ x x_min then out_left else if ltb_ℤ x_max x then out_right else 0)
      (if ltb_ℤ y y_min then out_top else if ltb_ℤ y_max y then out_bottom else 0)

abbrev magnitude : ℤ → ℕ
magnitude v = pos_part v + neg_part v

abbrev is_negative : ℤ → Bool
is_negative v = ltb_ℤ v (pos 0)

-- The quotient, rounded toward zero.
unfoldable pub ◌/ℤ◌ : ℤ → ℤ → ℤ
a /ℤ b =
    let q = magnitude a / magnitude b in
    if xor (is_negative a) (is_negative b) then sub_ℕ 0 q else pos q

unfoldable pub divide_round_nearest : ℤ → ℤ → ℤ
divide_round_nearest numerator denominator =
    let half = denominator /ℤ pos 2 in
    if xor (is_negative numerator) (is_negative denominator)
    then (numerator -ℤ half) /ℤ denominator
    else (numerator +ℤ half) /ℤ denominator

-- The line as it was given, and the last column and row of the panel.
pub record Line : Type 0 where
  pub original_x0 : ℤ
  pub original_y0 : ℤ
  pub original_dx : ℤ
  pub original_dy : ℤ
  pub x_max : ℤ
  pub y_max : ℤ

-- The endpoints as far as they are clipped, with their codes.
pub record Ends : Type 0 where
  pub x0c : ℤ
  pub y0c : ℤ
  pub x1c : ℤ
  pub y1c : ℤ
  pub code0 : ℕ
  pub code1 : ℕ

abbrev code_of : Line → ℤ → ℤ → ℕ
code_of l x y = out_code x y (pos 0) (pos 0) l.x_max l.y_max

-- The column where the line meets row `y`, or the row where it meets column `x`.
unfoldable pub meet : ℤ → ℤ → ℤ → ℤ → ℤ → Option ℤ
meet start extent run from to =
    if eq_ℤ run (pos 0)
    then none
    else some (start +ℤ divide_round_nearest (extent *ℤ (to -ℤ from)) run)

-- The new place of the endpoint with code `code_out`.
unfoldable pub cut : Line → ℕ → Option (ℤ × ℤ)
cut l code_out =
    if not (bit_and code_out out_top == 0)
    then Option.map (λ x. (x, pos 0))
        (meet l.original_x0 l.original_dx l.original_dy l.original_y0 (pos 0))
    else if not (bit_and code_out out_bottom == 0)
    then Option.map (λ x. (x, l.y_max))
        (meet l.original_x0 l.original_dx l.original_dy l.original_y0 l.y_max)
    else if not (bit_and code_out out_right == 0)
    then Option.map (λ y. (l.x_max, y))
        (meet l.original_y0 l.original_dy l.original_dx l.original_x0 l.x_max)
    else Option.map (λ y. (pos 0, y))
        (meet l.original_y0 l.original_dy l.original_dx l.original_x0 (pos 0))

-- The endpoint that was cut: the first one, if it has that code.
unfoldable pub move_end : Line → Ends → ℕ → ℤ × ℤ → Ends
move_end l e code_out (x, y) =
    if code_out == e.code0
    then record e { x0c = x; y0c = y; code0 = code_of l x y }
    else record e { x1c = x; y1c = y; code1 = code_of l x y }

-- The clipping loop, with the cuts that are left: `none` is the source's early return.
unfoldable pub clip_line : ℕ → Line → Ends → Option Ends
clip_line zero l e = if bit_or e.code0 e.code1 == 0 then some e else none
clip_line (suc cuts) l e =
    if bit_or e.code0 e.code1 == 0
    then some e
    else if not (bit_and e.code0 e.code1 == 0)
    then none
    else let code_out = if not (e.code0 == 0) then e.code0 else e.code1 in
      elim (cut l code_out) [ none ↦ none | some p ↦ clip_line cuts l (move_end l e code_out p) ]

-- What stays the same along the drawn line.
pub record Stroke : Type 0 where
  pub x1c : ℤ
  pub y1c : ℤ
  pub dx : ℕ
  pub dy : ℕ
  pub sx : ℤ
  pub sy : ℤ
  pub on : Bool

-- Bresenham's loop: fuel, the stroke, the place, the error term and the driver.
unfoldable pub line_loop : ℕ → Stroke → ℤ → ℤ → ℤ → Driver → Option Driver
line_loop zero s x y err d = none
line_loop (suc fuel) s x y err d =
    let e = set_pixel d x y s.on in
    let e2 = pos 2 *ℤ err in
    let steps_x = ltb_ℤ (sub_ℕ 0 s.dy) e2 in
    let steps_y = ltb_ℤ e2 (pos s.dx) in
    let err1 = if steps_x then err -ℤ pos s.dy else err in
    elim (eq_ℤ x s.x1c && eq_ℤ y s.y1c) [
      | true ↦ some e
      | false ↦
          line_loop fuel s (if steps_x then x +ℤ s.sx else x) (if steps_y then y +ℤ s.sy else y)
            (if steps_y then err1 +ℤ pos s.dx else err1) e
    ]

-- The part behind the clipping. The fuel is a pixel for each column and each row, and one more.
unfoldable pub draw_clipped : Driver → Ends → Bool → Option Driver
draw_clipped d e on =
    let dx = magnitude (e.x1c -ℤ e.x0c) in
    let dy = magnitude (e.y1c -ℤ e.y0c) in
    line_loop (dx + dy + 1)
      (record {
        x1c = e.x1c;
        y1c = e.y1c;
        dx = dx;
        dy = dy;
        sx = if ltb_ℤ e.x0c e.x1c then pos 1 else negsuc 0;
        sy = if ltb_ℤ e.y0c e.y1c then pos 1 else negsuc 0;
        on = on;
      })
      e.x0c e.y0c (pos dx -ℤ pos dy) d

abbrev pub line_of : Driver → ℤ → ℤ → ℤ → ℤ → Line
line_of d x0 y0 x1 y1 = record {
  original_x0 = x0;
  original_y0 = y0;
  original_dx = x1 -ℤ x0;
  original_dy = y1 -ℤ y0;
  x_max = pos d.config.width -ℤ pos 1;
  y_max = pos d.config.height -ℤ pos 1;
}

abbrev pub ends_of : Line → ℤ → ℤ → ℤ → ℤ → Ends
ends_of l x0 y0 x1 y1 = record {
  x0c = x0;
  y0c = y0;
  x1c = x1;
  y1c = y1;
  code0 = code_of l x0 y0;
  code1 = code_of l x1 y1;
}

-- An iteration clips an endpoint to one of four boundaries: four are allowed.
unfoldable pub draw_line : Driver → ℤ → ℤ → ℤ → ℤ → Bool → Option Driver
draw_line d x0 y0 x1 y1 on =
    let l = line_of d x0 y0 x1 y1 in
    if not (has_buffer d) then some d else elim (clip_line 4 l (ends_of l x0 y0 x1 y1)) [
      | none ↦ some d
      | some e ↦ draw_clipped d e on
    ]
