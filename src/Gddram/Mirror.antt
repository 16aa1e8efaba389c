-- ===== src/Gddram/Mirror.antt =====
-- A flush of src/SSD1315.cpp and the display memory it writes: what the job knows of both.
pub mod Job
use ssd.Common.{
  ℕ, Bool, true, false, List, ◌+◌, ◌-◌, ◌≤◌, ◌<◌, ◌≡◌, ◌⊎◌, inl, inr, refl, ◌∙◌, arith, ◌==◌,
  Bool-cases, ltb, leb, ◌&&◌, length, get_or, has_bit,
}
use ssd.Driver.{Dirty, FlushJob, FlushState}
use ssd.Gddram.{Gddram, set_columns, set_pages, write_bytes}
use ssd.Gddram.Writes.{Fits, Landed, write_bytes-Landed}

-- The content to show: a byte for each page and column of the panel.
pub record Picture : Type 0 where
  pub byte : ℕ → ℕ → ℕ
  pub width : ℕ
  pub pages : ℕ

-- Nothing is due for column `c` of page `p`.
abbrev pub Clean : Dirty → ℕ → ℕ → Type 0
Clean t p c = (has_bit t.pages p ≡ false) ⊎ (c < get_or t.min_col p 0) ⊎ (get_or t.max_col p 0 < c)

-- The memory holds the picture wherever nothing is due.
pub record Shows (v : Picture) (t : Dirty) (g : Gddram) : Type 0 where
  pub shows : (p c : ℕ) → p < v.pages → c < v.width → Clean t p c → g.ram p c ≡ v.byte p c

-- The window of the job: on the panel, and no smaller than what is due in its page.
pub record Window (v : Picture) (t : Dirty) (j : FlushJob) : Type 0 where
  pub page_in : j.page < v.pages
  pub end_in : (j.page ≤ j.end_page) × (j.end_page < v.pages)
  pub low : j.min_col ≤ get_or t.min_col j.page 0
  pub high : get_or t.max_col j.page 0 ≤ j.max_col
  pub ordered : j.min_col ≤ j.max_col
  pub on_panel : j.max_col < v.width

-- The columns are set.
pub record AtPage (j : FlushJob) (g : Gddram) : Type 0 where
  pub last : g.col_end ≡ j.max_col
  pub pointer : g.col ≡ j.min_col

-- The columns and the page are set, and the memory holds the page up to the column of the job.
pub record AtData (v : Picture) (j : FlushJob) (g : Gddram) : Type 0 where
  pub last : g.col_end ≡ j.max_col
  pub pointer : g.col ≡ j.col
  pub one_page : (g.page ≡ j.page) × (g.page_start ≡ j.page) × (g.page_end ≡ j.page)
  pub left : j.col ≤ j.max_col
  pub done : (c : ℕ) → c < j.col → c < v.width → g.ram j.page c ≡ v.byte j.page c

abbrev pub Ready : Picture → FlushState → FlushJob → Gddram → Type 0
Ready v FlushState.set_page_addr j g = AtPage j g
Ready v FlushState.send_data j g = AtData v j g
Ready v _ j g = 0 ≤ 0

-- The page of the job, when the last byte has landed.
unfoldable pub DoneTo : Picture → FlushJob → Gddram → ℕ → Type 0
DoneTo v j g col = (c : ℕ) → c < col → c < v.width → g.ram j.page c ≡ v.byte j.page c

pub set_columns-AtPage :
    (v : Picture) (t : Dirty) (j : FlushJob) (g : Gddram)
    → Shows v t g
    → let h = set_columns j.min_col j.max_col g in Shows v t h × AtPage j h
unfolding set_columns
set_columns-AtPage v t j g s =
    (record { shows = λ p c x y z. s.shows p c x y z }, record { last = refl; pointer = refl })

pub set_pages-AtData :
    (v : Picture) (t : Dirty) (j k : FlushJob) (g : Gddram)
    → Shows v t g
    → Window v t j
    → AtPage j g
    → (k.page ≡ j.page) × (k.col ≡ j.min_col) × (k.max_col ≡ j.max_col)
    → let h = set_pages j.page j.page g in Shows v t h × AtData v k h
unfolding set_pages
set_pages-AtData v t j k g s w a (p, c, m) = (
  record { shows = λ p c x y z. s.shows p c x y z },
  record {
    last = ground (arith, a.last, m);
    pointer = ground (arith, a.pointer, c);
    one_page = ground (arith, p);
    left = omega (arith, c, m, w.ordered);
    done = λ x h o.
        let e = s.shows j.page x w.page_in o (inr (inl (omega (arith, w.low, c, h)))) in rw p e;
  },
)

-- The bytes of a frame are those of the picture from the column of the job on.
unfoldable pub IsPart : Picture → FlushJob → List ℕ → Type 0
IsPart v j bs = (i : ℕ) → i < length bs → get_or bs i 0 ≡ v.byte j.page (j.col + i)

write_bytes_inside :
    (v : Picture) (j : FlushJob) (g h : Gddram) (bs : List ℕ) (c : ℕ)
    → AtData v j g
    → Landed bs g h
    → IsPart v j bs
    → j.col ≤ c
    → c < j.col + length bs
    → h.ram j.page c ≡ v.byte j.page c
unfolding IsPart
write_bytes_inside v j g h bs c a l same low high =
    let i = c - j.col in
    let e = l.hit i (omega (arith, low, high)) in
    let f = same i (omega (arith, low, high)) in
    let x : j.col + i ≡ c = omega (arith, low) in ground (arith, e, f, x, a.pointer, a.one_page)

write_bytes_outside :
    (v : Picture) (j : FlushJob) (g h : Gddram) (bs : List ℕ) (p c : ℕ)
    → AtData v j g
    → Landed bs g h
    → ((p == j.page) ≡ false) ⊎ (c < j.col) ⊎ (j.col + length bs ≤ c)
    → h.ram p c ≡ g.ram p c
write_bytes_outside v j g h bs p c a l away =
    l.miss p c (ground (arith, away, a.pointer, a.one_page))

write_bytes_pixel :
    (v : Picture) (t : Dirty) (j : FlushJob) (g h : Gddram) (bs : List ℕ)
    → Shows v t g
    → AtData v j g
    → Landed bs g h
    → IsPart v j bs
    → (p c : ℕ) → p < v.pages
    → c < v.width
    → Clean t p c
    → h.ram p c ≡ v.byte p c
write_bytes_pixel v t j g h bs s a l same p c x y clean =
    let here : p ≡ j.page → j.col ≤ c → c < j.col + length bs → h.ram p c ≡ v.byte p c =
      λ q low high. let e = write_bytes_inside v j g h bs c a l same low high in rw q e in
    let away : ((p == j.page) ≡ false) ⊎ (c < j.col) ⊎ (j.col + length bs ≤ c)
        → h.ram p c ≡ v.byte p c =
      λ o. write_bytes_outside v j g h bs p c a l o ∙ s.shows p c x y clean in
    elim (Bool-cases (p == j.page)) [
      | inr other ↦ away (inl other)
      | inl same_page ↦ elim (Bool-cases (ltb c j.col)) [
        | inl before ↦ away (inr (inl (ground (arith, before))))
        | inr from ↦ elim (Bool-cases (ltb c (j.col + length bs))) [
          | inr behind ↦ away (inr (inr (ground (arith, behind))))
          | inl inside ↦
              here (ground (arith, same_page)) (ground (arith, from)) (ground (arith, inside))
        ]
      ]
    ]

write_bytes-DoneTo :
    (v : Picture) (j : FlushJob) (g h : Gddram) (bs : List ℕ)
    → AtData v j g
    → Landed bs g h
    → IsPart v j bs
    → DoneTo v j h (j.col + length bs)
unfolding DoneTo
write_bytes-DoneTo v j g h bs a l same c lt y = elim (Bool-cases (ltb c j.col)) [
  | inl before ↦
      write_bytes_outside v j g h bs j.page c a l (inr (inl (ground (arith, before))))
      ∙ a.done c (ground (arith, before)) y
  | inr from ↦ write_bytes_inside v j g h bs c a l same (ground (arith, from)) lt
]

-- Data bytes of the picture: they keep what the memory shows, and complete it up to their end.
pub write_bytes-Shows :
    (v : Picture) (t : Dirty) (j : FlushJob) (g : Gddram) (bs : List ℕ)
    → Shows v t g
    → AtData v j g
    → j.col + length bs ≤ j.max_col + 1
    → IsPart v j bs
    → let h = write_bytes bs g in Shows v t h × DoneTo v j h (j.col + length bs) × Landed bs g h
write_bytes-Shows v t j g bs s a room same =
    let f : Fits (length bs) g = record {
      room = omega (arith, room, a.pointer, a.last);
      one_page = ground (arith, a.one_page);
    } in
    let l = write_bytes-Landed bs g f in
    let h = write_bytes bs g in
    (
      record { shows = write_bytes_pixel v t j g h bs s a l same },
      write_bytes-DoneTo v j g h bs a l same,
      l,
    )
