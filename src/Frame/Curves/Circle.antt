-- ===== src/Frame/Curves/Circle.antt =====
-- drawCircle and fillCircle of src/SSD1315.cpp: the midpoint algorithm. What is plotted lies on the
-- panel, so the source's casts to 16 bits change nothing.
pub mod Stops
use ssd.Common.{ℕ, zero, suc, Bool, true, false, Option, none, some, ◌+◌, not, ◌||◌, if◌then◌else◌}
use ssd.Common.Int.{ℤ, pos, pos_part, ◌+ℤ◌, ◌-ℤ◌, ◌*ℤ◌, ltb_ℤ, leb_ℤ}
use ssd.Driver.{Driver}
use ssd.Frame.Geometry.{has_buffer, clamp_low, clamp_high}
use ssd.Frame.Pixel.{set_pixel}
use ssd.Frame.Shapes.{draw_vline, eq_ℤ}

-- The center.
pub record Center : Type 0 where
  pub cx : ℤ
  pub cy : ℤ

-- `plotIfVisible`
unfoldable pub plot_if_visible : Bool → ℤ → ℤ → Driver → Driver
plot_if_visible on x y d =
    if ltb_ℤ x (pos 0)
      || ltb_ℤ y (pos 0)
      || leb_ℤ (pos d.config.width) x
      || leb_ℤ (pos d.config.height) y
    then d
    else set_pixel d x y on

-- The eight pixels of a round.
unfoldable pub plot_octants : Bool → Center → ℤ → ℤ → Driver → Driver
plot_octants on c x y d =
    let d1 = plot_if_visible on (c.cx +ℤ x) (c.cy +ℤ y) d in
    let d2 = plot_if_visible on (c.cx +ℤ y) (c.cy +ℤ x) d1 in
    let d3 = plot_if_visible on (c.cx -ℤ y) (c.cy +ℤ x) d2 in
    let d4 = plot_if_visible on (c.cx -ℤ x) (c.cy +ℤ y) d3 in
    let d5 = plot_if_visible on (c.cx -ℤ x) (c.cy -ℤ y) d4 in
    let d6 = plot_if_visible on (c.cx -ℤ y) (c.cy -ℤ x) d5 in
    let d7 = plot_if_visible on (c.cx +ℤ y) (c.cy -ℤ x) d6 in
    plot_if_visible on (c.cx +ℤ x) (c.cy -ℤ y) d7

-- `drawSpanIfVisible`
unfoldable pub draw_span_if_visible : Bool → ℤ → ℤ → ℤ → Driver → Driver
draw_span_if_visible on x y span_height d =
    if ltb_ℤ x (pos 0) || leb_ℤ (pos d.config.width) x || leb_ℤ span_height (pos 0)
    then d
    else let y_end = y +ℤ span_height -ℤ pos 1 in
      if ltb_ℤ y_end (pos 0) || leb_ℤ (pos d.config.height) y
      then d
      else let top = clamp_low y in
        draw_vline d x top (clamp_high d.config.height y_end -ℤ top +ℤ pos 1) on

-- The four spans of a round. At y = 0 the mirrored ones repeat the same two columns.
unfoldable pub fill_octants : Bool → Center → ℤ → ℤ → Driver → Driver
fill_octants on c x y d =
    let height_x = pos 2 *ℤ x +ℤ pos 1 in
    let height_y = pos 2 *ℤ y +ℤ pos 1 in
    let d1 = draw_span_if_visible on (c.cx +ℤ x) (c.cy -ℤ y) height_y d in
    let d2 = draw_span_if_visible on (c.cx +ℤ y) (c.cy -ℤ x) height_x d1 in
    if not (eq_ℤ y (pos 0))
    then draw_span_if_visible on (c.cx -ℤ x) (c.cy -ℤ y) height_y
        (draw_span_if_visible on (c.cx -ℤ y) (c.cy -ℤ x) height_x d2)
    else d2

-- The loop of both: fuel, what a round draws, `x`, `y` and `err`.
unfoldable pub circle_loop : ℕ → (ℤ → ℤ → Driver → Driver) → ℤ → ℤ → ℤ → Driver → Option Driver
circle_loop zero round x y err d = none
circle_loop (suc fuel) round x y err d = elim (leb_ℤ y x) [
  | false ↦ some d
  | true ↦
      let y1 = y +ℤ pos 1 in
      let err1 = err +ℤ (pos 1 +ℤ pos 2 *ℤ y1) in
      let shrinks = ltb_ℤ (pos 0) (pos 2 *ℤ (err1 -ℤ x) +ℤ pos 1) in
      let x1 = if shrinks then x -ℤ pos 1 else x in
      circle_loop fuel round x1 y1 (if shrinks then err1 +ℤ (pos 1 -ℤ pos 2 *ℤ x1) else err1)
        (round x y d)
]

-- The guards that both share, and the loop, with a round for each row of the first octant.
unfoldable pub circle :
    (Bool → Center → ℤ → ℤ → Driver → Driver) → Driver → ℤ → ℤ → ℤ → Bool → Option Driver
circle round d cx cy r on =
    if not (has_buffer d) || ltb_ℤ r (pos 0)
    then some d
    else if eq_ℤ r (pos 0)
    then some (set_pixel d cx cy on)
    else if ltb_ℤ (cx +ℤ r) (pos 0)
        || ltb_ℤ (cy +ℤ r) (pos 0)
        || leb_ℤ (pos d.config.width) (cx -ℤ r)
        || leb_ℤ (pos d.config.height) (cy -ℤ r)
    then some d
    else circle_loop (pos_part r + 2) (round on (record { cx = cx; cy = cy })) r (pos 0) (pos 0) d

unfoldable pub draw_circle : Driver → ℤ → ℤ → ℤ → Bool → Option Driver
unfolding circle
draw_circle d cx cy r on = circle plot_octants d cx cy r on

unfoldable pub fill_circle : Driver → ℤ → ℤ → ℤ → Bool → Option Driver
unfolding circle
fill_circle d cx cy r on = circle fill_octants d cx cy r on
