-- ===== src/Gddram/Data.antt =====
-- The data instructions of _pollFlushInternal of src/SSD1315.cpp: their frames are the framebuffer's
-- bytes, and the end of a page finds it in the display memory.
use mathlib.Core.Path.{subst}
use ssd.Common.{
  ℕ, ◌∷◌, ◌+◌, ◌-◌, ◌*◌, ◌%◌, ◌≤◌, ◌<◌, ◌≡◌, inl, inr, refl, arith, ◌==◌, Bool-cases, length,
  get_or, get_or-drop, get_or-take, drop, u16, ap, sym, if◌then◌else◌, ◌∙◌, leb,
}
use ssd.Status.{success}
use ssd.Command
use ssd.Driver.{Driver, FlushState}
use ssd.Flush.Poll.{
  stop, next, chunk, chunk_size, chunk_offset, buffer_bytes, advance_job, count_transaction,
  after_chunk, finish_page, certify_baseline, finish_flush, next_window,
}
use ssd.Frame.Bounds.{HasShape}
use ssd.Frame.Dirty.Cover.{HasWindows}
use ssd.Flush.Terminal.{publish_flush}
use ssd.Traffic.Quiet.{update_health-Bookkept}
use ssd.Flush.Poll.Chunk.{chunk_lem}
use ssd.Gddram.{Gddram, receive, shown}
use ssd.Gddram.Mirror.{Window, Ready, AtData, DoneTo, IsPart, write_bytes-Shows}
use ssd.Gddram.Mirror.Job.{clear_page-Shows, clear_page-HasWindows, next_window-Window}
use ssd.Gddram.Refines.{
  picture_of, Shown, Mirrors, RoundMirrors, with_frame, HasShape-same, Window-same,
}

-- The bytes of a data frame, against the picture.
chunk-IsPart :
    (d : Driver) (b : ℕ)
    → length (chunk d b) ≡ chunk_size d b
    → IsPart (picture_of d) d.flush (chunk d b)
unfolding IsPart chunk chunk_offset
chunk-IsPart d b l i lt =
    let w = d.flush.page % d.config.page_buffer_pages * d.config.width in
    let o = chunk_offset d in
    let e : d.flush.col + w + i ≡ d.flush.col + i + w = omega arith in
    get_or-take (chunk_size d b) (drop o (buffer_bytes d)) i 0 (omega (arith, l, lt))
    ∙ get_or-drop o (buffer_bytes d) i 0
    ∙ ap (λ k. get_or (buffer_bytes d) k 0) e

at_data :
    (g : Gddram) (d : Driver)
    → d.flush.state ≡ FlushState.send_data
    → Mirrors g d
    → AtData (picture_of d) d.flush (shown g d.bus.sent)
at_data g d h m = subst (λ s. Ready (picture_of d) s d.flush (shown g d.bus.sent)) h m.ready

-- The driver after a data frame.
unfoldable pub after_data : Driver → ℕ → Driver
after_data d b =
    let e = count_transaction (record d { bus = with_frame d (Command.ctrl_data ∷ chunk d b) }) in
    record e { flush = advance_job e.flush (chunk_size d b) }

-- What is known of it, before the end of its page is looked at.
pub record Sent (g : Gddram) (d : Driver) : Type 0 where
  pub shape : HasShape d
  pub full : d.config.page_buffer_pages ≡ d.binding.total_pages
  pub windows : HasWindows d.config.width d.dirty
  pub shows : Shown g d
  pub window : Window (picture_of d) d.dirty d.flush
  pub data_state : d.flush.state ≡ FlushState.send_data
  pub done : DoneTo (picture_of d) d.flush (shown g d.bus.sent) d.flush.col
  pub goes_on : d.flush.col ≤ d.flush.max_col → AtData (picture_of d) d.flush (shown g d.bus.sent)
  pub ends : d.flush.col ≤ d.flush.max_col + 1

pub after_data-Sent :
    (g : Gddram) (d : Driver) (b : ℕ)
    → d.flush.state ≡ FlushState.send_data
    → Mirrors g d
    → Sent g (after_data d b)
unfolding after_data advance_job shown receive DoneTo
after_data-Sent g d b h m =
    let v = picture_of d in
    let now = shown g d.bus.sent in
    let a = at_data g d h m in
    let c = chunk_lem d b m.shape (record { left = a.left; on_panel = m.window.on_panel }) in
    let (s, done, l) =
      write_bytes-Shows v d.dirty d.flush now (chunk d b) m.shows a c.2 (chunk-IsPart d b c.0) in
    let col : u16 (d.flush.col + chunk_size d b) ≡ d.flush.col + length (chunk d b) =
      ground (arith, c.0, c.2, m.window.on_panel, m.shape.width_in) in
    record {
      shape = HasShape-same d _ refl refl refl m.shape;
      full = m.full;
      windows = m.windows;
      shows = s;
      window = Window-same _ _ d.flush _ (refl, refl, refl, refl) m.window;
      data_state = h;
      done = λ x lt y. done x (omega (arith, lt, col)) y;
      goes_on = λ le. record {
        last = ground (arith, a.last, l.window);
        pointer =
            let p = l.pointer (omega (arith, le, col, a.pointer, a.last)) in
            ground (arith, p, a.pointer, col);
        one_page = ground (arith, a.one_page, l.window, l.page);
        left = le;
        done = λ x lt y. done x (omega (arith, lt, col)) y;
      };
      ends = omega (arith, col, c.2);
    }

-- What the memory is compared with does not look at the rest of the driver.
pub record SameView (d e : Driver) : Type 0 where
  pub config : e.config ≡ d.config
  pub buffer : e.binding.buffer ≡ d.binding.buffer
  pub total_pages : e.binding.total_pages ≡ d.binding.total_pages
  pub marks :
      (e.dirty.pages ≡ d.dirty.pages)
      × (e.dirty.min_col ≡ d.dirty.min_col)
      × (e.dirty.max_col ≡ d.dirty.max_col)
  pub sent : e.bus.sent ≡ d.bus.sent

pub Shown-same : (g : Gddram) (d e : Driver) → SameView d e → Shown g d → Shown g e
Shown-same g d e q s = record {
  shows = λ p c x y z.
      let k =
        s.shows p c (omega (arith, x, q.total_pages)) (ground (arith, y, q.config))
          (ground (arith, z, q.marks)) in
      rw (q.config, q.buffer, q.sent) k;
}

finish_flush-SameView : (d : Driver) → SameView d (finish_flush d)
unfolding finish_flush publish_flush certify_baseline
finish_flush-SameView d = grind (arith, update_health-Bookkept)

-- The page is over: it may be cleared, or kept for what was drawn meanwhile.
finish_page-Shown :
    (g : Gddram) (d : Driver)
    → Sent g d
    → d.flush.col ≡ d.flush.max_col + 1
    → Shown g (finish_page d) × HasWindows d.config.width (finish_page d).dirty
unfolding finish_page
finish_page-Shown g d s over =
    let v = picture_of d in
    let now = shown g d.bus.sent in
    let p : d.flush.page < 8 = omega (arith, s.window.page_in, s.shape.total) in
    elim (Bool-cases (get_or d.dirty.generation d.flush.page 0 == d.flush.page_generation)) [
      | inl same ↦
          let c =
            clear_page-Shows v d.dirty d.flush now s.windows (s.shape.total).0 s.window s.shows
              (subst (λ k. DoneTo v d.flush now k) over s.done) in
          let w =
            clear_page-HasWindows d.config.width d.dirty d.flush.page (s.shape.width_in).0 s.windows
              p in
          rw same (record { shows = λ q x a b e. c.shows q x a b e }, w)
      | inr drawn ↦ rw drawn (record { shows = λ q x a b e. s.shows.shows q x a b e }, s.windows)
    ]

-- Behind the page: the next window begins, or the job is done.
next_page-RoundMirrors :
    (g : Gddram) (d : Driver) (b : ℕ)
    → Sent g d
    → d.flush.col ≡ d.flush.max_col + 1
    → let d1 = finish_page d in
      let (found, j) = next_window (d1.flush.end_page + 1 - d1.flush.page) d1.dirty d1.flush in
      let d2 = record d1 { flush = j } in
      RoundMirrors g (if found then next d2 b else stop success (finish_flush d2))
unfolding finish_page
next_page-RoundMirrors g d b s over =
    let v = picture_of d in
    let (shown_now, windows_now) = finish_page-Shown g d s over in
    let d1 = finish_page d in
    let n = d1.flush.end_page + 1 - d1.flush.page in
    let (found, k) = next_window n d1.dirty d1.flush in
    let d2 = record d1 { flush = k } in
    let sum : d1.flush.page + n ≡ d1.flush.end_page + 1 =
      ground (arith, s.window.page_in, s.window.end_in, s.shape.total) in
    let x =
      next_window-Window v n d1.dirty d1.flush windows_now (s.shape.total).0 sum
        (s.window.end_in).1 in
    elim (Bool-cases found) [
      | inl hit ↦
          let (w, begun, at_start) = x hit in
          let nothing : Ready v FlushState.set_col_addr k (shown g d.bus.sent) = omega arith in
          rw hit (record {
            shape = HasShape-same d _ refl refl refl s.shape;
            full = s.full;
            windows = windows_now;
            shows = record { shows = λ p c a e z. shown_now.shows p c a e z };
            window = w;
            ready = subst (λ t. Ready v t k (shown g d.bus.sent)) (sym begun) nothing;
          })
      | inr none_left ↦
          let all : Shown g d2 = record { shows = λ p c a e z. shown_now.shows p c a e z } in
          rw none_left (
            λ h. Shown-same g d2 (finish_flush d2) (finish_flush-SameView d2) all,
            λ h. absurd (ground (arith, h)),
          )
    ]

-- The end of a data instruction.
pub after_chunk-RoundMirrors :
    (g : Gddram) (d : Driver) (b : ℕ) → Sent g d → RoundMirrors g (after_chunk d b)
unfolding after_chunk
after_chunk-RoundMirrors g d b s = elim (Bool-cases (leb d.flush.col d.flush.max_col)) [
  | inl more ↦
      let now = shown g d.bus.sent in
      let a = s.goes_on (ground (arith, more)) in
      rw more (record {
        shape = s.shape;
        full = s.full;
        windows = s.windows;
        shows = s.shows;
        window = s.window;
        ready = subst (λ t. Ready (picture_of d) t d.flush now) (sym s.data_state) a;
      })
  | inr over ↦ rw over (next_page-RoundMirrors g d b s (ground (arith, over, s.ends)))
]
