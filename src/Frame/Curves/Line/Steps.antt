-- ===== src/Frame/Curves/Line/Steps.antt =====
-- Bresenham's step in drawLine of src/SSD1315.cpp: the place stays on the line, and the error term
-- tells how far.
use ssd.Common.{ℕ, zero, suc, Bool, true, ◌+◌, ◌*◌, ◌≤◌, ◌<◌, ◌≡◌, ◌⊎◌, refl, arith, ltb}
use ssd.Common.Int.{
  ℤ, pos, negsuc, pos_part, neg_part, sub_ℕ, ◌+ℤ◌, ◌-ℤ◌, ◌*ℤ◌, ltb_ℤ, +ℤ_parts, -ℤ_parts,
}
use ssd.Frame.Shapes.{eq_ℤ}
use ssd.Frame.Curves.Line.{Stroke}

-- `u` steps of `s` lead from `x` to `t`.
abbrev pub Toward : ℤ → ℤ → ℤ → ℕ → Type 0
Toward s x t u =
    ((s ≡ pos 1) × (pos_part t + neg_part x ≡ pos_part x + neg_part t + u))
    ⊎ ((s ≡ negsuc 0) × (pos_part x + neg_part t ≡ pos_part t + neg_part x + u))

-- How far the line that is left may be from the straight one, `p` and `q` its columns and rows,
-- scaled by the rows and the columns of the whole.
abbrev pub Band : ℕ → ℕ → ℕ → ℕ → Type 0
Band dx dy p q =
    ((dy < dx) × (2 * q ≤ 2 * p + dx) × (2 * p < 2 * q + dx))
    ⊎ ((dx ≡ dy) × (p ≡ q))
    ⊎ ((dx < dy) × (2 * q < 2 * p + dy) × (2 * p ≤ 2 * q + dy))

-- What is left: `u` columns and `v` rows.
pub record OnLine (s : Stroke) (u v : ℕ) (x y err : ℤ) : Type 0 where
  pub column : Toward s.sx x s.x1c u
  pub row : Toward s.sy y s.y1c v
  pub within : (u ≤ s.dx) × (v ≤ s.dy)
  pub band : Band s.dx s.dy (u * s.dy) (v * s.dx)
  pub error : pos_part err + s.dy + v * s.dx ≡ neg_part err + s.dx + u * s.dy

twice_parts :
    (a : ℤ) → pos_part (pos 2 *ℤ a) + 2 * neg_part a ≡ neg_part (pos 2 *ℤ a) + 2 * pos_part a
unfolding ◌*ℤ◌
twice_parts a = ground arith

abbrev pub steps_x : Stroke → ℤ → Bool
steps_x s err = ltb_ℤ (sub_ℕ 0 s.dy) (pos 2 *ℤ err)

abbrev pub steps_y : Stroke → ℤ → Bool
steps_y s err = ltb_ℤ (pos 2 *ℤ err) (pos s.dx)

pub steps_x_lem :
    (s : Stroke) (u v : ℕ) (x y err : ℤ)
    → OnLine s u v x y err
    → steps_x s err ≡ ltb (s.dy + 2 * (v * s.dx)) (2 * s.dx + 2 * (u * s.dy))
steps_x_lem s u v x y err o = let t = twice_parts err in let e = o.error in ground (arith, t, e)

pub steps_y_lem :
    (s : Stroke) (u v : ℕ) (x y err : ℤ)
    → OnLine s u v x y err
    → steps_y s err ≡ ltb (s.dx + 2 * (u * s.dy)) (2 * s.dy + 2 * (v * s.dx))
steps_y_lem s u v x y err o = let t = twice_parts err in let e = o.error in ground (arith, t, e)

-- No step leads past the end.
pub no_column :
    (dx dy v : ℕ)
    → v ≤ dy
    → Band dx dy (0 * dy) (v * dx)
    → dy + 2 * (v * dx) < 2 * dx + 2 * (0 * dy)
    → v ≡ 0
no_column dx dy zero h b k = refl
no_column dx dy (suc v) h b k = absurd (ground (arith, b, k))

pub no_row :
    (dx dy u : ℕ)
    → u ≤ dx
    → Band dx dy (u * dy) (0 * dx)
    → dx + 2 * (u * dy) < 2 * dy + 2 * (0 * dx)
    → u ≡ 0
no_row dx dy zero h b k = refl
no_row dx dy (suc u) h b k = absurd (ground (arith, b, k))

-- Before the end there is a step.
pub some_step :
    (dx dy u v : ℕ)
    → (u ≤ dx) × (v ≤ dy)
    → Band dx dy (u * dy) (v * dx)
    → 1 ≤ u + v
    → (dy + 2 * (v * dx) < 2 * dx + 2 * (u * dy)) ⊎ (dx + 2 * (u * dy) < 2 * dy + 2 * (v * dx))
some_step dx dy u v w b k = ground (arith, b, w, k)

Toward-step : (s x t : ℤ) (u : ℕ) → Toward s x t (suc u) → Toward s (x +ℤ s) t u
Toward-step s x t u h = ground (arith, +ℤ_parts x s, h)

pub Toward-here : (s x t : ℤ) → Toward s x t 0 → eq_ℤ x t ≡ true
Toward-here s x t h = ground (arith, h)

-- The two step conditions.
abbrev pub GoesX : ℕ → ℕ → ℕ → ℕ → Type 0
GoesX dx dy p q = dy + 2 * q < 2 * dx + 2 * p

abbrev pub GoesY : ℕ → ℕ → ℕ → ℕ → Type 0
GoesY dx dy p q = dx + 2 * p < 2 * dy + 2 * q

near_both :
    (dx dy n m : ℕ)
    → Band dx dy (suc n * dy) (suc m * dx)
    → GoesX dx dy (suc n * dy) (suc m * dx)
    → GoesY dx dy (suc n * dy) (suc m * dx)
    → Band dx dy (n * dy) (m * dx)
near_both dx dy n m b k l = ground (arith, b, k, l)

near_column :
    (dx dy n q : ℕ)
    → Band dx dy (suc n * dy) q
    → GoesX dx dy (suc n * dy) q
    → ¬ GoesY dx dy (suc n * dy) q
    → suc n ≤ dx
    → Band dx dy (n * dy) q
near_column dx dy n q b k l w = ground (arith, b, k, l, w)

near_row :
    (dx dy p m : ℕ)
    → Band dx dy p (suc m * dx)
    → ¬ GoesX dx dy p (suc m * dx)
    → GoesY dx dy p (suc m * dx)
    → suc m ≤ dy
    → Band dx dy p (m * dx)
near_row dx dy p m b k l w = ground (arith, b, k, l, w)

pub step_both :
    (s : Stroke) (n m : ℕ) (x y err : ℤ)
    → OnLine s (suc n) (suc m) x y err
    → GoesX s.dx s.dy (suc n * s.dy) (suc m * s.dx)
    → GoesY s.dx s.dy (suc n * s.dy) (suc m * s.dx)
    → OnLine s n m (x +ℤ s.sx) (y +ℤ s.sy) (err -ℤ pos s.dy +ℤ pos s.dx)
step_both s n m x y err o k l = record {
  column = Toward-step s.sx x s.x1c n o.column;
  row = Toward-step s.sy y s.y1c m o.row;
  within = omega (arith, o.within);
  band = near_both s.dx s.dy n m o.band k l;
  error =
      let a = -ℤ_parts err (pos s.dy) in
      let b = +ℤ_parts (err -ℤ pos s.dy) (pos s.dx) in omega (arith, a, b, o.error);
}

pub step_column :
    (s : Stroke) (n v : ℕ) (x y err : ℤ)
    → OnLine s (suc n) v x y err
    → GoesX s.dx s.dy (suc n * s.dy) (v * s.dx)
    → ¬ GoesY s.dx s.dy (suc n * s.dy) (v * s.dx)
    → OnLine s n v (x +ℤ s.sx) y (err -ℤ pos s.dy)
step_column s n v x y err o k l = record {
  column = Toward-step s.sx x s.x1c n o.column;
  row = o.row;
  within = omega (arith, o.within);
  band = near_column s.dx s.dy n (v * s.dx) o.band k l (omega (arith, o.within));
  error = let a = -ℤ_parts err (pos s.dy) in omega (arith, a, o.error);
}

pub step_row :
    (s : Stroke) (u m : ℕ) (x y err : ℤ)
    → OnLine s u (suc m) x y err
    → ¬ GoesX s.dx s.dy (u * s.dy) (suc m * s.dx)
    → GoesY s.dx s.dy (u * s.dy) (suc m * s.dx)
    → OnLine s u m x (y +ℤ s.sy) (err +ℤ pos s.dx)
step_row s u m x y err o k l = record {
  column = o.column;
  row = Toward-step s.sy y s.y1c m o.row;
  within = omega (arith, o.within);
  band = near_row s.dx s.dy (u * s.dy) m o.band k l (omega (arith, o.within));
  error = let a = +ℤ_parts err (pos s.dx) in omega (arith, a, o.error);
}
