-- ===== src/Blocking/Wait/Clock.antt =====
-- The clock that waitFlush of src/SSD1315.cpp reads.
use mathlib.Core.Path.{subst}
use ssd.Common.{ℕ, zero, suc, none, some, ◌+◌, ◌-◌, ◌≤◌, ◌<◌, ◌≡◌, arith}
use ssd.Config.{Config}

-- What the clock hook shows after `reads` reads, or the start of the wait without one.
unfoldable pub shows : Config → ℕ → ℕ → ℕ
shows c start reads = elim c.now_ms [ none ↦ start | some f ↦ f reads ]

-- A clock of 32 bits that does not go back, and does not wrap during the wait.
pub record Rising (c : Config) (start : ℕ) : Type 0 where
  pub wide : (k : ℕ) → shows c start k < 4294967296
  pub later : (k : ℕ) → start ≤ shows c start k
  pub rises : (k : ℕ) → shows c start k ≤ shows c start (k + 1)

le_same : (n : ℕ) → n ≤ n
le_same n = omega arith

pub le_then : (a b c : ℕ) → a ≤ b → b ≤ c → a ≤ c
le_then a b c h k = omega arith

add_zero : (i : ℕ) → i ≡ i + zero
add_zero i = omega arith

add_suc : (i n : ℕ) → i + n + 1 ≡ i + suc n
add_suc i n = omega arith

rises_by : (c : Config) (start i n : ℕ) → Rising c start → shows c start i ≤ shows c start (i + n)
rises_by c start i zero r =
    subst (λ k. shows c start i ≤ shows c start k) (add_zero i) (le_same (shows c start i))
rises_by c start i (suc n) r =
    subst (λ k. shows c start i ≤ shows c start k) (add_suc i n)
      (le_then _ _ _ (rises_by c start i n r) (r.rises (i + n)))

difference : (i j : ℕ) → i ≤ j → i + (j - i) ≡ j
difference i j h = omega arith

pub rises-le :
    (c : Config) (start i j : ℕ) → Rising c start → i ≤ j → shows c start i ≤ shows c start j
rises-le c start i j r h =
    subst (λ k. shows c start i ≤ shows c start k) (difference i j h) (rises_by c start i (j - i) r)
