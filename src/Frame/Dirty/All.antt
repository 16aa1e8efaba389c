-- ===== src/Frame/Dirty/All.antt =====
-- markAllDirty of src/SSD1315.cpp: every page of the RAM window, in full.
use ssd.Common.{
  ℕ, true, false, ◌≤◌, ◌<◌, ◌≡◌, ◌==◌, ◌||◌, ◌⊎◌, ◌-◌, ◌+◌, arith, length, get_or, has_bit,
  has_bit-set_bit, set_bit-lt, get_or-set_self, get_or-set_ne, length-set, if◌then◌else◌,
  Bool-cases, inl, inr, u32, for_range_inv, min,
}
use ssd.Driver.{Driver, Dirty}
use ssd.Frame.Dirty.{mark_full_page, mark_pages, mark_all_dirty}
use ssd.Frame.Dirty.Cover.{HasWindows, Covers}
use ssd.Frame.Geometry.{is_page_buffer_mode, buffer_start_page}

-- One page after its whole width was marked.
record Filled (w : ℕ) (t : Dirty) (p : ℕ) (u : Dirty) (q : ℕ) : Type 0 where
  pub bits : has_bit u.pages q ≡ (p == q || has_bit t.pages q)
  pub low : get_or u.min_col q 0 ≡ (if p == q then 0 else get_or t.min_col q 0)
  pub high : get_or u.max_col q 0 ≡ (if p == q then w - 1 else get_or t.max_col q 0)

mark_full_page-Filled :
    (d : Driver) (t : Dirty) (p q : ℕ)
    → HasWindows d.config.width t
    → p < 8
    → q < 8
    → Filled d.config.width t p (mark_full_page d p t) q
unfolding mark_full_page
mark_full_page-Filled d t p q w h k =
    let v = d.config.width - 1 in
    let bits = has_bit-set_bit t.pages p q w.mask h k in
    let min_self = get_or-set_self t.min_col p 0 0 (omega (arith, w.lengths)) in
    let max_self = get_or-set_self t.max_col p v 0 (omega (arith, w.lengths)) in
    elim (Bool-cases (p == q)) [
      | inl same ↦ ground arith
      | inr other ↦
          let min_ne = get_or-set_ne t.min_col {i = p} {j = q} 0 0 (ground arith) in
          let max_ne = get_or-set_ne t.max_col {i = p} {j = q} v 0 (ground arith) in ground arith
    ]

mark_full_page_mask :
    (d : Driver) (t : Dirty) (p : ℕ)
    → HasWindows d.config.width t
    → p < 8
    → let u = mark_full_page d p t in
      (u.pages < 256) × (length u.min_col ≡ 8) × (length u.max_col ≡ 8) × (length u.generation ≡ 8)
unfolding mark_full_page
mark_full_page_mask d t p w h = ground (
  arith,
  set_bit-lt t.pages p w.mask h,
  length-set t.min_col p 0,
  length-set t.max_col p (d.config.width - 1),
  length-set t.generation p (u32 (get_or t.generation p 0 + 1)),
  w.lengths,
)

mark_full_page-HasWindows :
    (d : Driver) (t : Dirty) (p : ℕ)
    → 1 ≤ d.config.width
    → HasWindows d.config.width t
    → p < 8
    → HasWindows d.config.width (mark_full_page d p t)
mark_full_page-HasWindows d t p one w h =
    let m = mark_full_page_mask d t p w h in
    record {
      mask = m.0;
      lengths = (m.1, m.2, m.3);
      on_panel = λ q k. ground (arith, mark_full_page-Filled d t p q w h k, w.on_panel q k);
      ordered = λ q k dirty. ground (arith, mark_full_page-Filled d t p q w h k, w.ordered q k);
    }

-- Windows are in order, and the pages from `start` up to `i` are marked in full.
abbrev MarkedUpTo : ℕ → ℕ → ℕ → Dirty → Type 0
MarkedUpTo width start i t =
    HasWindows width t × ((q x : ℕ) → start ≤ q → q < i → x < width → Covers t q x)

mark_full_page-MarkedUpTo :
    (d : Driver) (start i : ℕ) (t : Dirty)
    → 1 ≤ d.config.width
    → i < 8
    → MarkedUpTo d.config.width start i t
    → MarkedUpTo d.config.width start (i + 1) (mark_full_page d i t)
mark_full_page-MarkedUpTo d start i t one h (w, before) = (
  mark_full_page-HasWindows d t i one w h,
  λ q x lo hi on. elim (Bool-cases (i == q)) [
    | inl here ↦ ground (arith, mark_full_page-Filled d t i q w h (omega arith))
    | inr other ↦
        let c = before q x lo (ground arith) on in
        ground (arith, mark_full_page-Filled d t i q w h (omega arith))
  ],
)

mark_pages-MarkedUpTo :
    (d : Driver) (start end_exclusive : ℕ)
    → 1 ≤ d.config.width
    → start ≤ end_exclusive
    → end_exclusive ≤ 8
    → HasWindows d.config.width d.dirty
    → MarkedUpTo d.config.width start end_exclusive (mark_pages d start end_exclusive).dirty
unfolding mark_pages
mark_pages-MarkedUpTo d start end_exclusive one le h w =
    for_range_inv (MarkedUpTo d.config.width start) (mark_full_page d) end_exclusive
      (λ i t lt m. mark_full_page-MarkedUpTo d start i t one (omega arith) m)
      (end_exclusive - start) start d.dirty (omega arith) (w, λ q x lo hi on. absurd (omega arith))

mark_all_dirty_full :
    (d : Driver)
    → is_page_buffer_mode d ≡ false
    → 1 ≤ d.binding.total_pages
    → mark_all_dirty d ≡ mark_pages d 0 d.binding.total_pages
unfolding mark_all_dirty
mark_all_dirty_full d m h = ground arith

mark_all_dirty_none : (d : Driver) → d.binding.total_pages ≡ 0 → mark_all_dirty d ≡ d
unfolding mark_all_dirty
mark_all_dirty_none d h = ground arith

-- With the whole panel in RAM, everything is marked, and every window stays on the panel.
pub mark_all_dirty-Covers :
    (d : Driver) (q x : ℕ)
    → is_page_buffer_mode d ≡ false
    → d.binding.total_pages ≤ 8
    → HasWindows d.config.width d.dirty
    → q < d.binding.total_pages
    → x < d.config.width
    → Covers (mark_all_dirty d).dirty q x
mark_all_dirty-Covers d q x m h w k on =
    let p = mark_pages-MarkedUpTo d 0 d.binding.total_pages (omega arith) (omega arith) h w in
    rw (mark_all_dirty_full d m (omega arith)) (p.1 q x (omega arith) k on)

mark_all_dirty_paged :
    (d : Driver)
    → is_page_buffer_mode d ≡ true
    → let start = buffer_start_page d in
      let end_exclusive = min (start + d.config.page_buffer_pages) d.binding.total_pages in
      (mark_all_dirty d ≡ d)
      ⊎ (start ≤ end_exclusive) × (mark_all_dirty d ≡ mark_pages d start end_exclusive)
unfolding mark_all_dirty
mark_all_dirty_paged d m = ground arith

mark_all_dirty_cases :
    (d : Driver)
    → (mark_all_dirty d ≡ d)
      ⊎ ((start : ℕ) × (end_exclusive : ℕ) × (start ≤ end_exclusive)
          × (end_exclusive ≤ d.binding.total_pages)
          × (mark_all_dirty d ≡ mark_pages d start end_exclusive))
mark_all_dirty_cases d = elim (Bool-cases (is_page_buffer_mode d)) [
  | inl paged ↦ elim (mark_all_dirty_paged d paged) [
    | inl same ↦ inl same
    | inr (le, changed) ↦ inr (_, _, le, omega arith, changed)
  ]
  | inr full ↦ elim (Bool-cases (d.binding.total_pages == 0)) [
    | inl no_pages ↦ inl (mark_all_dirty_none d (ground arith))
    | inr pages ↦ inr (0, _, omega arith, omega arith, mark_all_dirty_full d full (ground arith))
  ]
]

-- In either mode, marking everything keeps every dirty window on the panel.
pub mark_all_dirty-HasWindows :
    (d : Driver)
    → d.binding.total_pages ≤ 8
    → 1 ≤ d.config.width
    → HasWindows d.config.width d.dirty
    → HasWindows d.config.width (mark_all_dirty d).dirty
mark_all_dirty-HasWindows d h one w = elim (mark_all_dirty_cases d) [
  | inl same ↦ rw same w
  | inr (start, end_exclusive, le, top, changed) ↦
      rw changed ((mark_pages-MarkedUpTo d start end_exclusive one le (omega arith) w).0)
]

-- From the first window on, marking everything marks every page that the RAM holds.
mark_all_dirty_first :
    (d : Driver)
    → d.paging.current_buffer_page ≡ 0
    → 1 ≤ d.config.page_buffer_pages
    → d.config.page_buffer_pages ≤ d.binding.total_pages
    → d.binding.attached ≡ true
    → let end_exclusive =
        if is_page_buffer_mode d then d.config.page_buffer_pages else d.binding.total_pages in
      (mark_all_dirty d ≡ mark_pages d 0 end_exclusive)
      × (d.config.page_buffer_pages ≤ end_exclusive)
      × (end_exclusive ≤ d.binding.total_pages)
unfolding mark_all_dirty is_page_buffer_mode
mark_all_dirty_first d z one le a = ground arith

pub mark_all_dirty_window :
    (d : Driver) (q x : ℕ)
    → d.paging.current_buffer_page ≡ 0
    → 1 ≤ d.config.page_buffer_pages
    → d.config.page_buffer_pages ≤ d.binding.total_pages
    → d.binding.total_pages ≤ 8
    → d.binding.attached ≡ true
    → HasWindows d.config.width d.dirty
    → q < d.config.page_buffer_pages
    → x < d.config.width
    → Covers (mark_all_dirty d).dirty q x
mark_all_dirty_window d q x z one le few a w k on =
    let (e, lo, hi) = mark_all_dirty_first d z one le a in
    let last =
      if is_page_buffer_mode d then d.config.page_buffer_pages else d.binding.total_pages in
    let p : MarkedUpTo d.config.width 0 last (mark_pages d 0 last).dirty =
      mark_pages-MarkedUpTo d 0 last (omega (arith, on)) (omega arith) (omega (arith, hi, few)) w in
    let lt : q < last = omega (arith, k, lo) in rw e (p.1 q x (omega arith) lt on)
