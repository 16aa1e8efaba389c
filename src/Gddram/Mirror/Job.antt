-- ===== src/Gddram/Mirror/Job.antt =====
-- The end of a page and the search for the next one in _pollFlushInternal of src/SSD1315.cpp.
use ssd.Common.{
  ℕ, zero, suc, true, false, ◌+◌, ◌≤◌, ◌<◌, ◌≡◌, inl, inr, arith, ◌==◌, Bool-cases, leb, u8, length,
  length-set, get_or, get_or-set_self, get_or-set_ne, has_bit, has_bit-clear_bit, clear_bit-lt,
}
use ssd.Driver.{Dirty, FlushJob, FlushState}
use ssd.Frame.Dirty.Cover.{HasWindows}
use ssd.Flush.Request.{clear_page}
use ssd.Flush.Poll.{next_window}
use ssd.Gddram.{Gddram}
use ssd.Gddram.Mirror.{Picture, Shows, Window, DoneTo}

-- What clearing a page does to each page.
pub record Cleared (t : Dirty) (p q : ℕ) (u : Dirty) : Type 0 where
  pub bit_self : p ≡ q → has_bit u.pages q ≡ false
  pub bit_other : (p == q) ≡ false → has_bit u.pages q ≡ has_bit t.pages q
  pub low : (p == q) ≡ false → get_or u.min_col q 0 ≡ get_or t.min_col q 0
  pub high : (p == q) ≡ false → get_or u.max_col q 0 ≡ get_or t.max_col q 0
  pub high_self : p ≡ q → get_or u.max_col q 0 ≡ 0

pub clear_page-Cleared :
    (width : ℕ) (t : Dirty) (p q : ℕ)
    → HasWindows width t
    → p < 8
    → q < 8
    → Cleared t p q (clear_page t p)
unfolding clear_page
clear_page-Cleared width t p q w h k =
    let bits = has_bit-clear_bit t.pages p q w.mask h k in
    record {
      bit_self = λ e. ground (arith, bits, e);
      bit_other = λ e. ground (arith, bits, e);
      low = λ e. get_or-set_ne t.min_col {i = p} {j = q} 0xFF 0 (ground (arith, e));
      high = λ e. get_or-set_ne t.max_col {i = p} {j = q} 0 0 (ground (arith, e));
      high_self =
          λ e. let s = get_or-set_self t.max_col p 0 0 (omega (arith, h, w.lengths)) in rw (← e) s;
    }

clear_page_mask :
    (width : ℕ) (t : Dirty) (p : ℕ)
    → HasWindows width t
    → p < 8
    → let u = clear_page t p in
      (u.pages < 256) × (length u.min_col ≡ 8) × (length u.max_col ≡ 8) × (length u.generation ≡ 8)
unfolding clear_page
clear_page_mask width t p w h = ground (
  arith,
  clear_bit-lt t.pages p w.mask h,
  length-set t.min_col p 0xFF,
  length-set t.max_col p 0,
  w.lengths,
)

pub clear_page-HasWindows :
    (width : ℕ) (t : Dirty) (p : ℕ)
    → 1 ≤ width
    → HasWindows width t
    → p < 8
    → HasWindows width (clear_page t p)
clear_page-HasWindows width t p o w h =
    let m = clear_page_mask width t p w h in
    record {
      mask = m.0;
      lengths = (m.1, m.2, m.3);
      on_panel = λ q k.
          let c = clear_page-Cleared width t p q w h k in
          elim (Bool-cases (p == q)) [
            | inl same ↦ let e = c.high_self (ground (arith, same)) in rw e o
            | inr other ↦ let e = c.high other in let l = w.on_panel q k in rw e l
          ];
      ordered = λ q k b.
          let c = clear_page-Cleared width t p q w h k in
          elim (Bool-cases (p == q)) [
            | inl same ↦ let e = c.bit_self (ground (arith, same)) in absurd (ground (arith, e, b))
            | inr other ↦
                let l = w.ordered q k (ground (arith, c.bit_other other, b)) in
                ground (arith, c.low other, c.high other, l)
          ];
    }

-- The page of the job holds the picture, once its last byte has landed: it may be cleared.
pub clear_page-Shows :
    (v : Picture) (t : Dirty) (j : FlushJob) (g : Gddram)
    → HasWindows v.width t
    → v.pages ≤ 8
    → Window v t j
    → Shows v t g
    → DoneTo v j g (j.max_col + 1)
    → Shows v (clear_page t j.page) g
unfolding DoneTo
clear_page-Shows v t j g w few x s d = record {
  shows = λ p c in_pages in_width clean.
      let k =
        clear_page-Cleared v.width t j.page p w (omega (arith, x.page_in, few))
          (omega (arith, in_pages, few)) in
      elim (Bool-cases (j.page == p)) [
        | inr other ↦
            s.shows p c in_pages in_width
              (ground (arith, k.bit_other other, k.low other, k.high other, clean))
        | inl same ↦ elim (Bool-cases (leb c j.max_col)) [
          | inl inside ↦
              let q : j.page ≡ p = ground (arith, same) in
              let e = d c (ground (arith, inside)) in_width in rw (← q) e
          | inr behind ↦
              let q : j.page ≡ p = ground (arith, same) in
              let e =
                s.shows j.page c x.page_in in_width (inr (inr (ground (arith, behind, x.high)))) in
              rw (← q) e
        ]
      ];
}

-- A window that is found belongs to a page of the job, and is what is due there.
pub next_window-Window :
    (v : Picture) (n : ℕ) (t : Dirty) (j : FlushJob)
    → HasWindows v.width t
    → v.pages ≤ 8
    → j.page + n ≡ j.end_page + 1
    → j.end_page < v.pages
    → let (found, k) = next_window n t j in
      found ≡ true → Window v t k × (k.state ≡ FlushState.set_col_addr) × (k.col ≡ k.min_col)
unfolding next_window
next_window-Window v zero t j w few sum end = λ found. absurd (ground (arith, found))
next_window-Window v (suc n) t j w few sum end =
    let skipped = record j { page = u8 (j.page + 1) } in
    let left = record j {
      min_col = get_or t.min_col j.page 0;
      max_col = get_or t.max_col j.page 0;
      page = u8 (j.page + 1);
    } in
    let on : u8 (j.page + 1) + n ≡ j.end_page + 1 = ground (arith, sum, end, few) in
    let a = next_window-Window v n t skipped w few on end in
    let b = next_window-Window v n t left w few on end in
    let c = w.on_panel j.page (omega (arith, sum, end, few)) in ground arith
