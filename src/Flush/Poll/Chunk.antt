-- ===== src/Flush/Poll/Chunk.antt =====
-- The data frames of _pollFlushInternal of src/SSD1315.cpp.
use ssd.Common.{
  ℕ, suc, ◌+◌, ◌*◌, ◌%◌, ◌≤◌, ◌<◌, ◌≡◌, arith, length, length-take, length-drop, drop, take, get_or,
  get_or-take, get_or-drop, ap, ◌∙◌,
}
use native.Mathlib.Nat.{mul-le-mul_right, mod-lt}
use ssd.Config.{max_data_bytes_for_write_capacity}
use ssd.Driver.{Driver}
use ssd.Frame.Bounds.{HasShape}
use ssd.Frame.Pixel.{bytes_of}
use ssd.Flush.Poll.{chunk_size, chunk_offset, chunk, buffer_bytes}

-- The window of the job lies on the panel, with something left to send.
pub record HasWindow (d : Driver) : Type 0 where
  pub left : d.flush.col ≤ d.flush.max_col
  pub on_panel : d.flush.max_col < d.config.width

row_end : (w p x r : ℕ) → x ≤ w → r < p → x + r * w ≤ w * p
row_end w p x r hx hr = let k : suc r * w ≤ p * w = mul-le-mul_right w hr in grind arith

chunk_size_lem :
    (d : Driver) (budget : ℕ)
    → HasShape d
    → HasWindow d
    → (d.flush.col + chunk_size d budget ≤ d.flush.max_col + 1)
      × (chunk_size d budget ≤ budget)
      × (chunk_size d budget ≤ max_data_bytes_for_write_capacity d.config.max_write_bytes)
unfolding chunk_size
chunk_size_lem d budget s w = omega (arith, w.left, w.on_panel, s.width_in)

chunk_in :
    (d : Driver) (budget : ℕ)
    → HasShape d
    → HasWindow d
    → chunk_offset d + chunk_size d budget ≤ length (bytes_of d)
unfolding chunk_offset
chunk_in d budget s w =
    let p = d.config.page_buffer_pages in
    let r = d.flush.page % p in
    let m : r < p = mod-lt d.flush.page s.pages_in.0 in
    let x = d.flush.col + chunk_size d budget in
    let h = chunk_size_lem d budget s w in
    let e = row_end d.config.width p x r (omega (arith, h, w.on_panel)) m in
    grind (arith, e, s.stored)

-- Each byte of a chunk.
chunk_byte :
    (d : Driver) (budget i : ℕ)
    → i < chunk_size d budget
    → get_or (take (chunk_size d budget) (drop (chunk_offset d) (buffer_bytes d))) i 0
      ≡ get_or
          (bytes_of d)
          (d.flush.col + i + d.flush.page % d.config.page_buffer_pages * d.config.width)
          0
unfolding chunk_offset
chunk_byte d budget i lt =
    let o = d.flush.col + d.flush.page % d.config.page_buffer_pages * d.config.width in
    let e : o + i ≡ d.flush.col + i + d.flush.page % d.config.page_buffer_pages * d.config.width =
      omega arith in
    get_or-take (chunk_size d budget) (drop o (buffer_bytes d)) i 0 lt
    ∙ get_or-drop o (buffer_bytes d) i 0
    ∙ ap (λ k. get_or (buffer_bytes d) k 0) e

-- On a well-shaped driver, with the window of the job on the panel and something of it left to send, a
-- data frame carries as many bytes as it counts, and they are those of the framebuffer in its
-- page from the current column of the job on, none from outside the framebuffer. It stays in the
-- window of its page, within the budget, and within what the transport takes.
pub chunk_lem :
    (d : Driver) (budget : ℕ)
    → HasShape d
    → HasWindow d
    → (length (chunk d budget) ≡ chunk_size d budget)
      × (chunk_offset d + chunk_size d budget ≤ length (bytes_of d))
      × (d.flush.col + length (chunk d budget) ≤ d.flush.max_col + 1)
      × (length (chunk d budget) ≤ budget)
      × (length (chunk d budget) ≤ max_data_bytes_for_write_capacity d.config.max_write_bytes)
      × ((i : ℕ)
          → i < length (chunk d budget)
          → (d.flush.col + i ≤ d.flush.max_col)
            × (get_or (chunk d budget) i 0
                ≡ get_or
                    (bytes_of d)
                    (d.flush.col + i + d.flush.page % d.config.page_buffer_pages * d.config.width)
                    0))
unfolding chunk
chunk_lem d budget s w =
    let t = length-take (chunk_size d budget) (drop (chunk_offset d) (buffer_bytes d)) in
    let u = length-drop (chunk_offset d) (buffer_bytes d) in
    let i = chunk_in d budget s w in
    let h = chunk_size_lem d budget s w in
    let l : length (take (chunk_size d budget) (drop (chunk_offset d) (buffer_bytes d)))
        ≡ chunk_size d budget =
      grind (arith, t, u, i, h) in
    (
      l,
      i,
      omega (arith, l, h),
      omega (arith, l, h),
      omega (arith, l, h),
      λ k lt. (omega (arith, l, h, lt), chunk_byte d budget k (omega (arith, l, lt))),
    )
