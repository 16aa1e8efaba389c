-- ===== src/Text/Width.antt =====
-- getTextWidthN of src/SSD1315.cpp against the lines of the text.
use ssd.Common.{
  ℕ, suc, some, List, [], ◌∷◌, ◌+◌, ◌*◌, ◌≤◌, ◌≡◌, arith, if◌then◌else◌, ltb, length, take, min,
  length-take,
}
use ssd.Text.{measure, is_line_end, get_text_width_n}

-- The larger of two.
abbrev pub largest : ℕ → ℕ → ℕ
largest a b = if ltb a b then b else a

-- The characters of a line, from its start: all before the first line end.
abbrev pub first_line : List ℕ → ℕ
first_line [] = 0
first_line (c ∷ cs) = if is_line_end c then 0 else suc (first_line cs)

-- The characters of the longest of the lines that follow the first.
abbrev pub later_lines : List ℕ → ℕ
later_lines [] = 0
later_lines (c ∷ cs) =
    if is_line_end c then largest (first_line cs) (later_lines cs) else later_lines cs

measure_lem :
    (cs : List ℕ) (m w : ℕ)
    → measure cs m w ≡ largest m (largest (w + 6 * first_line cs) (6 * later_lines cs))
unfolding measure
measure_lem [] m w = ground arith
measure_lem (c ∷ cs) m w = ground (arith, measure_lem cs (largest m w) 0, measure_lem cs m (w + 6))

lines_le : (cs : List ℕ) → (first_line cs ≤ length cs) × (later_lines cs ≤ length cs)
lines_le [] = omega arith
lines_le (c ∷ cs) = ground (arith, lines_le cs)

-- The width of a text of `n` characters is six columns for each character of its longest line,
-- and at most 3072.
pub get_text_width_n_lem :
    (text : List ℕ) (n : ℕ)
    → let counted = take (min n 512) text in
      (get_text_width_n (some text) n ≡ 6 * largest (first_line counted) (later_lines counted))
      × (get_text_width_n (some text) n ≤ 3072)
unfolding get_text_width_n
get_text_width_n_lem text n =
    let counted = take (min n 512) text in
    ground (arith, measure_lem counted 0 0, lines_le counted, length-take (min n 512) text)
