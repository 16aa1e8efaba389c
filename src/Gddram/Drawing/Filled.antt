-- ===== src/Gddram/Drawing/Filled.antt =====
-- clear and fill of src/SSD1315.cpp against the display memory.
use ssd.Common.{
  ℕ, false, true, ◌<◌, ◌≡◌, ◌*◌, arith, length, length-replicate, Bool-cases, inl, inr, sym,
}
use mathlib.Core.Path.{subst}
use ssd.Driver.{Driver}
use ssd.Config.Validate.{is_some}
use ssd.Frame.Geometry.{has_buffer, get_buffer_size, is_page_buffer_mode}
use ssd.Frame.Bounds.{HasShape}
use ssd.Frame.Dirty.{mark_all_dirty}
use ssd.Frame.Dirty.Cover.{HasWindows}
use ssd.Frame.Dirty.All.{mark_all_dirty-HasWindows, mark_all_dirty-Covers}
use ssd.Frame.Pixel.{bytes_of, fill_buffer, clear, fill}
use ssd.Traffic.Quiet.{mark_all_dirty-OnlyDirty}
use ssd.Gddram.{Gddram}
use ssd.Gddram.Refines.{HasShape-same}
use ssd.Gddram.Request.{Prepared}
use ssd.Gddram.Drawing.{Covers-Clean}

-- The bytes are replaced, and nothing else.
record Refilled (d e : Driver) : Type 0 where
  pub config : e.config ≡ d.config
  pub paging : e.paging ≡ d.paging
  pub dirty : e.dirty ≡ d.dirty
  pub bus : e.bus ≡ d.bus
  pub attached : e.binding.attached ≡ d.binding.attached
  pub total_pages : e.binding.total_pages ≡ d.binding.total_pages
  pub stored : length (bytes_of e) ≡ d.config.width * d.config.page_buffer_pages

fill_buffer-Refilled :
    (d : Driver) (value : ℕ)
    → HasShape d
    → is_some d.binding.buffer ≡ true
    → Refilled d (fill_buffer d value)
unfolding fill_buffer get_buffer_size
fill_buffer-Refilled d value s h =
    let l = length-replicate (d.config.width * d.config.page_buffer_pages) value in ground arith

panel_full :
    (d : Driver)
    → d.config.page_buffer_pages ≡ d.binding.total_pages
    → is_page_buffer_mode d ≡ false
unfolding is_page_buffer_mode
panel_full d h = ground arith

-- With everything due, nothing of the memory has to be right.
mark_all_dirty-Prepared :
    (g : Gddram) (d : Driver)
    → HasShape d
    → d.config.page_buffer_pages ≡ d.binding.total_pages
    → HasWindows d.config.width d.dirty
    → Prepared g (mark_all_dirty d)
mark_all_dirty-Prepared g d s f w =
    let k = mark_all_dirty-OnlyDirty d in
    record {
      shape = HasShape-same d _ k.config k.binding k.paging s;
      full = rw (k.config, k.binding) f;
      windows =
          subst (λ n. HasWindows n.width (mark_all_dirty d).dirty) (sym k.config)
            (mark_all_dirty-HasWindows d (s.total).0 (s.width_in).0 w);
      shows = record {
        shows = λ q c hq hc clean. absurd (
            Covers-Clean _ q c
              (mark_all_dirty-Covers d q c (panel_full d f) (s.total).0 w
                (subst (λ b. q < b.total_pages) k.binding hq)
                (subst (λ n. c < n.width) k.config hc))
              clean);
      };
    }

refilled-Prepared :
    (g : Gddram) (d : Driver) (value : ℕ)
    → Prepared g d
    → is_some d.binding.buffer ≡ true
    → Prepared g (mark_all_dirty (fill_buffer d value))
refilled-Prepared g d value m h =
    let s = m.shape in
    let k = fill_buffer-Refilled d value s h in
    mark_all_dirty-Prepared g (fill_buffer d value) (ground (arith, s))
      (rw (k.config, k.total_pages) m.full) (rw (k.config, k.dirty) m.windows)

-- With a framebuffer of the whole panel that the display memory holds wherever nothing is due,
-- clearing it and filling it keep this so.
pub clear-Prepared :
    (g : Gddram) (d : Driver) → Prepared g d → Prepared g (clear d) × Prepared g (fill d)
unfolding clear fill
clear-Prepared g d m = elim (Bool-cases (has_buffer d)) [
  | inl there ↦
      let stored : is_some d.binding.buffer ≡ true = ground (arith, there) in
      rw there (refilled-Prepared g d 0 m stored, refilled-Prepared g d 0xFF m stored)
  | inr none_there ↦ rw none_there (m, m)
]
