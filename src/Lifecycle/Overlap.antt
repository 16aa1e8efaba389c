-- ===== src/Lifecycle/Overlap.antt =====
-- byteRangesOverlap of src/SSD1315.cpp against the ranges it is about.
use ssd.Common.{ℕ, true, some, ◌+◌, ◌≤◌, ◌<◌, ◌≡◌, ◌↔◌, inl, inr, arith, leb, Bool-cases}
use ssd.Lifecycle.{byte_ranges_overlap}

-- The address lies in the range of `size` bytes that starts at `first`.
pub record InRange (first size address : ℕ) : Type 0 where
  pub low : first ≤ address
  pub high : address < first + size

-- Two ranges are said to overlap exactly when some address lies in both.
pub byte_ranges_overlap_iff :
    (a n b m : ℕ)
    → (byte_ranges_overlap (some a) n (some b) m ≡ true) ↔ ((x : ℕ) × InRange a n x × InRange b m x)
unfolding byte_ranges_overlap
byte_ranges_overlap_iff a n b m = (shared, λ (x, p, q). ground arith)
  where
    shared :
        byte_ranges_overlap (some a) n (some b) m ≡ true → (x : ℕ) × InRange a n x × InRange b m x
    shared h = elim (Bool-cases (leb a b)) [
      | inl up ↦ (b, ground arith, ground arith)
      | inr down ↦ (a, ground arith, ground arith)
    ]
