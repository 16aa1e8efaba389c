-- ===== src/Frame/Dirty/Cover.antt =====
-- The dirty windows of src/SSD1315.cpp cover what was marked, and stay on the panel.
use ssd.Common.{
  ◌⊎◌, ℕ, true, ◌≤◌, ◌<◌, ◌≡◌, ◌==◌, ◌||◌, ◌&&◌, ◌-◌, arith, length, get_or, has_bit,
  has_bit-set_bit, set_bit-lt, get_or-set_self, get_or-set_ne, length-set, if◌then◌else◌, ltb,
  Bool-cases, inl, inr, leb, u32, ◌+◌,
}
use ssd.Driver.{Driver, Dirty}
use ssd.Frame.Dirty.{mark_page, mark_dirty, in_window}

-- The dirty state of a panel that is `width` columns wide: every marked page has a window of
-- columns of the panel.
pub record HasWindows (width : ℕ) (t : Dirty) : Type 0 where
  pub mask : t.pages < 256
  pub lengths : (length t.min_col ≡ 8) × (length t.max_col ≡ 8) × (length t.generation ≡ 8)
  pub on_panel : (p : ℕ) → p < 8 → get_or t.max_col p 0 < width
  pub ordered :
      (p : ℕ) → p < 8 → has_bit t.pages p ≡ true → get_or t.min_col p 0 ≤ get_or t.max_col p 0

-- The column `x` of page `p` is marked.
pub record Covers (t : Dirty) (p x : ℕ) : Type 0 where
  pub marked : has_bit t.pages p ≡ true
  pub from : get_or t.min_col p 0 ≤ x
  pub to : x ≤ get_or t.max_col p 0

-- The two bounds of each page after a mark.
record Marked (t : Dirty) (p a b : ℕ) (u : Dirty) (q : ℕ) : Type 0 where
  pub bits : has_bit u.pages q ≡ (p == q || has_bit t.pages q)
  pub low :
      get_or u.min_col q 0
      ≡ (if p == q && ltb a (get_or t.min_col q 0) then a else get_or t.min_col q 0)
  pub high :
      get_or u.max_col q 0
      ≡ (if p == q && ltb (get_or t.max_col q 0) b then b else get_or t.max_col q 0)

mark_page-Marked :
    (width : ℕ) (t : Dirty) (p a b q : ℕ)
    → HasWindows width t
    → p < 8
    → q < 8
    → Marked t p a b (mark_page t p a b) q
unfolding mark_page
mark_page-Marked width t p a b q w h k =
    let bits = has_bit-set_bit t.pages p q w.mask h k in
    let min_self = get_or-set_self t.min_col p a 0 (omega (arith, w.lengths)) in
    let max_self = get_or-set_self t.max_col p b 0 (omega (arith, w.lengths)) in
    elim (Bool-cases (p == q)) [
      | inl same ↦ ground arith
      | inr other ↦
          let min_ne = get_or-set_ne t.min_col {i = p} {j = q} a 0 (ground arith) in
          let max_ne = get_or-set_ne t.max_col {i = p} {j = q} b 0 (ground arith) in ground arith
    ]

mark_page_mask :
    (width : ℕ) (t : Dirty) (p a b : ℕ)
    → HasWindows width t
    → p < 8
    → let u = mark_page t p a b in
      (u.pages < 256) × (length u.min_col ≡ 8) × (length u.max_col ≡ 8) × (length u.generation ≡ 8)
unfolding mark_page
mark_page_mask width t p a b w h = ground (
  arith,
  set_bit-lt t.pages p w.mask h,
  length-set t.min_col p a,
  length-set t.max_col p b,
  length-set t.generation p (u32 (get_or t.generation p 0 + 1)),
  w.lengths,
)

mark_page-HasWindows :
    (width : ℕ) (t : Dirty) (p a b : ℕ)
    → HasWindows width t
    → p < 8
    → a ≤ b
    → b < width
    → HasWindows width (mark_page t p a b)
mark_page-HasWindows width t p a b w h le lt =
    let m = mark_page_mask width t p a b w h in
    record {
      mask = m.0;
      lengths = (m.1, m.2, m.3);
      on_panel = λ q k. ground (arith, mark_page-Marked width t p a b q w h k, w.on_panel q k);
      ordered = λ q k d. ground (arith, mark_page-Marked width t p a b q w h k, w.ordered q k);
    }

mark_page-Covers :
    (width : ℕ) (t : Dirty) (p a b q x : ℕ)
    → HasWindows width t
    → p < 8
    → q < 8
    → ((p ≡ q) × (a ≤ x) × (x ≤ b)) ⊎ Covers t q x
    → Covers (mark_page t p a b) q x
mark_page-Covers width t p a b q x w h k c = ground (arith, mark_page-Marked width t p a b q w h k)

-- A page and a range of columns that may be marked: on the panel, and in the RAM window.
pub record Markable (d : Driver) (p a b : ℕ) : Type 0 where
  pub windows : HasWindows d.config.width d.dirty
  pub page_in : (p < d.binding.total_pages) × (d.binding.total_pages ≤ 8)
  pub in_ram : in_window d p ≡ true
  pub columns : (a ≤ b) × (b < d.config.width)

mark_dirty_lem :
    (d : Driver) (p a b : ℕ)
    → Markable d p a b
    → (mark_dirty d p a b).dirty ≡ mark_page d.dirty p a b
unfolding mark_dirty
mark_dirty_lem d p a b m = ground arith

-- Marking adds the marked columns to what is dirty, and takes nothing away.
pub mark_dirty-Covers :
    (d : Driver) (p a b q x : ℕ)
    → Markable d p a b
    → q < 8
    → (p ≡ q) × (a ≤ x) × (x ≤ b) ⊎ Covers d.dirty q x
    → Covers (mark_dirty d p a b).dirty q x
mark_dirty-Covers d p a b q x m k c =
    rw (mark_dirty_lem d p a b m)
      (mark_page-Covers d.config.width d.dirty p a b q x m.windows (omega (arith, m.page_in)) k c)

mark_dirty_cases :
    (d : Driver) (p a b : ℕ)
    → 1 ≤ d.config.width
    → let last = if leb d.config.width b then d.config.width - 1 else b in
      (mark_dirty d p a b ≡ d)
      ⊎ ((mark_dirty d p a b).dirty ≡ mark_page d.dirty p a last)
        × (p < d.binding.total_pages)
        × (a ≤ last)
        × (last < d.config.width)
unfolding mark_dirty
mark_dirty_cases d p a b h = ground arith

-- Marking keeps every dirty window on the panel, whatever is marked.
pub mark_dirty-HasWindows :
    (d : Driver) (p a b : ℕ)
    → d.binding.total_pages ≤ 8
    → 1 ≤ d.config.width
    → HasWindows d.config.width d.dirty
    → HasWindows d.config.width (mark_dirty d p a b).dirty
mark_dirty-HasWindows d p a b h k w = elim (mark_dirty_cases d p a b k) [
  | inl same ↦ rw same w
  | inr (changed, page_in, ordered, on_panel) ↦
      rw changed
        (mark_page-HasWindows d.config.width d.dirty p a _ w (omega arith) ordered on_panel)
]
