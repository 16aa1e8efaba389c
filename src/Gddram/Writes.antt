-- ===== src/Gddram/Writes.antt =====
-- Data bytes of src/SSD1315.cpp that stay in a window of one page land side by side.
use ssd.Common.{
  ℕ, zero, suc, false, List, [], ◌∷◌, ◌+◌, ◌≤◌, ◌<◌, ◌≡◌, ◌⊎◌, inl, inr, ◌∙◌, refl, arith, ◌==◌,
  length, get_or,
}
use ssd.Gddram.{Gddram, write_byte, write_bytes}

-- A window of one page, with room for `n` bytes.
pub record Fits (n : ℕ) (g : Gddram) : Type 0 where
  pub room : g.col + n ≤ g.col_end + 1
  pub one_page : (g.page_start ≡ g.page) × (g.page_end ≡ g.page)

pub record Landed (bs : List ℕ) (g h : Gddram) : Type 0 where
  pub hit : (i : ℕ) → i < length bs → h.ram g.page (g.col + i) ≡ get_or bs i 0
  pub miss :
      (p c : ℕ)
      → ((p == g.page) ≡ false) ⊎ (c < g.col) ⊎ (g.col + length bs ≤ c)
      → h.ram p c ≡ g.ram p c
  pub window :
      (h.col_start ≡ g.col_start)
      × (h.col_end ≡ g.col_end)
      × (h.page_start ≡ g.page_start)
      × (h.page_end ≡ g.page_end)
  pub page : h.page ≡ g.page
  pub pointer : g.col + length bs ≤ g.col_end → h.col ≡ g.col + length bs

-- Inside the window a byte moves the pointer on in its row.
Moves : ℕ → Gddram → Type 0
Moves b g =
    let h = write_byte b g in
    (h.col ≡ g.col + 1)
    × (h.page ≡ g.page)
    × (h.col_start ≡ g.col_start)
    × (h.col_end ≡ g.col_end)
    × (h.page_start ≡ g.page_start)
    × (h.page_end ≡ g.page_end)

write_byte-Moves : (b : ℕ) (g : Gddram) → g.col < g.col_end → Moves b g
unfolding write_byte Moves
write_byte-Moves b g h = ground arith

write_byte_hits : (b : ℕ) (g : Gddram) → (write_byte b g).ram g.page g.col ≡ b
unfolding write_byte
write_byte_hits b g = ground arith

write_byte_misses :
    (b : ℕ) (g : Gddram) (p c : ℕ)
    → ((p == g.page) ≡ false) ⊎ ((c == g.col) ≡ false)
    → (write_byte b g).ram p c ≡ g.ram p c
unfolding write_byte
write_byte_misses b g p c h = ground arith

last_hit :
    (b : ℕ) (g : Gddram) (i : ℕ)
    → i < 1
    → (write_byte b g).ram g.page (g.col + i) ≡ get_or (b ∷ []) i 0
last_hit b g zero lt = let e = write_byte_hits b g in ground (arith, e)
last_hit b g (suc i) lt = absurd (omega arith)

last_byte : (b : ℕ) (g : Gddram) → Fits 1 g → Landed (b ∷ []) g (write_byte b g)
unfolding write_byte
last_byte b g f = record {
  hit = λ i lt. last_hit b g i lt;
  miss = λ p c m. ground arith;
  window = (refl, refl, refl, refl);
  page = ground (arith, f);
  pointer = λ h. ground arith;
}

write_byte-Fits :
    (b : ℕ) (bs : List ℕ) (g : Gddram)
    → Fits (suc (length bs)) g
    → Moves b g
    → Fits (length bs) (write_byte b g)
unfolding Moves
write_byte-Fits b bs g f m = grind (arith, f.room, f.one_page, m)

hit_behind :
    (b : ℕ) (bs : List ℕ) (g k : Gddram)
    → Moves b g
    → Landed bs (write_byte b g) k
    → (i : ℕ) → i < suc (length bs)
    → k.ram g.page (g.col + i) ≡ get_or (b ∷ bs) i 0
unfolding Moves
hit_behind b bs g k m r zero lt =
    let e : k.ram g.page g.col ≡ (write_byte b g).ram g.page g.col =
      r.miss g.page g.col (inr (inl (omega (arith, m.0)))) in
    let f = e ∙ write_byte_hits b g in ground (arith, f)
hit_behind b bs g k m r (suc i) lt = let e = r.hit i (omega arith) in ground (arith, e, m)

miss_behind :
    (b : ℕ) (bs : List ℕ) (g k : Gddram)
    → Moves b g
    → Landed bs (write_byte b g) k
    → (p c : ℕ) → ((p == g.page) ≡ false) ⊎ (c < g.col) ⊎ (g.col + suc (length bs) ≤ c)
    → k.ram p c ≡ g.ram p c
unfolding Moves
miss_behind b bs g k m r p c away =
    let e = r.miss p c (ground (arith, m, away)) in
    e ∙ write_byte_misses b g p c (ground (arith, away))

write_byte-Landed :
    (b : ℕ) (bs : List ℕ) (g k : Gddram)
    → Moves b g
    → Landed bs (write_byte b g) k
    → Landed (b ∷ bs) g k
unfolding Moves
write_byte-Landed b bs g k m r = record {
  hit = hit_behind b bs g k m r;
  miss = miss_behind b bs g k m r;
  window = ground (arith, m, r.window);
  page = ground (arith, m, r.page);
  pointer = λ h. let e = r.pointer (ground (arith, m, h)) in ground (arith, m, e);
}

-- The bytes of a data frame lie in the row from the pointer on, the rest of the memory stays, and
-- the pointer is behind them while the row has room.
pub write_bytes-Landed :
    (bs : List ℕ) (g : Gddram) → Fits (length bs) g → Landed bs g (write_bytes bs g)
unfolding write_bytes
write_bytes-Landed [] g f = record {
  hit = λ i lt. absurd (omega arith);
  miss = λ p c m. refl;
  window = (refl, refl, refl, refl);
  page = refl;
  pointer = λ h. omega arith;
}
write_bytes-Landed (b ∷ []) g f = last_byte b g f
write_bytes-Landed (b ∷ c ∷ cs) g f =
    let h = write_byte b g in
    let m = write_byte-Moves b g (omega (arith, f.room)) in
    let r = write_bytes-Landed (c ∷ cs) h (write_byte-Fits b (c ∷ cs) g f m) in
    write_byte-Landed b (c ∷ cs) g (write_bytes (c ∷ cs) h) m r
