-- ===== src/Gddram/Request.antt =====
-- requestFlush of src/SSD1315.cpp against the display memory: the job that it selects is one that
-- polls bring to its end.
use ssd.Common.{
  ℕ, zero, suc, Bool, true, false, Option, none, some, ◌+◌, ◌-◌, ◌≤◌, ◌<◌, ◌≡◌, ◌≢◌, ◌||◌,
  if◌then◌else◌, inl, inr, refl, arith, ◌==◌, Bool-cases, has_bit, has_bit_zero,
}
use ssd.Status.{Status, Err, value, error, success, is_ok}
use ssd.Driver.{Driver, Dirty, FlushJob, FlushState, operation_active, is_flushing}
use ssd.Health.{flush_failure}
use ssd.Frame.Bounds.{HasShape}
use ssd.Frame.Dirty.Cover.{HasWindows}
use ssd.Flush.Terminal.{consume_terminal_flush}
use ssd.Flush.Request.{
  sendable, clear_page, find_first, find_last, begin_job, zero_counters, select_pages,
  request_flush_internal, request_flush,
}
use ssd.Traffic.Quiet.{update_health-Bookkept}
use ssd.Gddram.{Gddram, shown}
use ssd.Gddram.Mirror.{Picture, Shows, Window}
use ssd.Gddram.Mirror.Job.{clear_page-Cleared, clear_page-HasWindows}
use ssd.Gddram.Data.{SameView, Shown-same}
use ssd.Gddram.Refines.{picture_of, Shown, Mirrors, HasShape-same, Window-same}

-- A page without a window to send has nothing due.
unsendable-Shows :
    (v : Picture) (t : Dirty) (p : ℕ) (g : Gddram)
    → HasWindows v.width t
    → v.pages ≤ 8
    → p < 8
    → sendable v.width t p ≡ false
    → Shows v t g
    → Shows v (clear_page t p) g
unsendable-Shows v t p g w few h drops s = record {
  shows = λ q c x y clean.
      let k = clear_page-Cleared v.width t p q w h (omega (arith, x, few)) in
      elim (Bool-cases (p == q)) [
        | inl same ↦
            let e : p ≡ q = ground (arith, same) in
            let due = s.shows p c (omega (arith, x, e)) y (ground (arith, drops, y)) in rw (← e) due
        | inr other ↦
            s.shows q c x y (ground (arith, k.bit_other other, k.low other, k.high other, clean))
      ];
}

-- The page that a search finds.
abbrev Found : ℕ → ℕ → Dirty → Option ℕ → Type 0
Found end width t none = 0 ≤ 0
Found end width t (some q) = (q < end) × (sendable width t q ≡ true)

record Searched (v : Picture) (end : ℕ) (g : Gddram) (r : Option ℕ × Dirty) : Type 0 where
  pub windows : HasWindows v.width r.1
  pub shows : Shows v r.1 g
  pub found : Found end v.width r.1 r.0

find_first-Searched :
    (v : Picture) (n p end : ℕ) (t : Dirty) (g : Gddram)
    → 1 ≤ v.width
    → v.pages ≤ 8
    → end ≤ 8
    → p + n ≡ end
    → HasWindows v.width t
    → Shows v t g
    → Searched v end g (find_first n p v.width t)
unfolding find_first
find_first-Searched v zero p end t g o few h sum w s = record {
  windows = w;
  shows = s;
  found = omega arith;
}
find_first-Searched v (suc n) p end t g o few h sum w s = elim (Bool-cases (has_bit t.pages p)) [
  | inr clean ↦
      rw (clean, find_first)
        (find_first-Searched v n (p + 1) end t g o few h (omega (arith, sum)) w s)
  | inl due ↦ elim (Bool-cases (sendable v.width t p)) [
    | inl sends ↦
        rw (due, sends, find_first)
          (record { windows = w; shows = s; found = (omega (arith, sum), sends) })
    | inr drops ↦
        let u = clear_page t p in
        let q : p < 8 = omega (arith, sum, h) in
        rw (due, drops, find_first)
          (find_first-Searched v n (p + 1) end u g o few h (omega (arith, sum))
            (clear_page-HasWindows v.width t p o w q) (unsendable-Shows v t p g w few q drops s))
  ]
]

find_last-le :
    (n first width : ℕ) (t : Dirty)
    → (first ≤ find_last n first width t) × (find_last n first width t ≤ first + n)
unfolding find_last
find_last-le zero first width t = (omega arith, omega arith)
find_last-le (suc n) first width t = ground (arith, find_last-le n first width t)

-- A full framebuffer, and a memory that holds it wherever nothing is due.
pub record Prepared (g : Gddram) (d : Driver) : Type 0 where
  pub shape : HasShape d
  pub full : d.config.page_buffer_pages ≡ d.binding.total_pages
  pub windows : HasWindows d.config.width d.dirty
  pub shows : Shown g d

-- With a flush under way, all that its polls need.
pub record Requested (g : Gddram) (d : Driver) : Type 0 where
  pub prepared : Prepared g d
  pub mirrors : is_flushing d ≡ true → Mirrors g d

with_dirty-Prepared :
    (g : Gddram) (d : Driver) (t : Dirty) (j : FlushJob)
    → Prepared g d
    → HasWindows d.config.width t
    → Shows (picture_of d) t (shown g d.bus.sent)
    → Prepared g (record d { dirty = t; flush = j })
with_dirty-Prepared g d t j m w s = record {
  shape = HasShape-same d _ refl refl refl m.shape;
  full = m.full;
  windows = w;
  shows = record { shows = λ p c x y z. s.shows p c x y z };
}

-- The job that begins at page `p`.
begin_job-Window :
    (g : Gddram) (d : Driver) (t : Dirty) (p : ℕ)
    → Prepared g d
    → HasWindows d.config.width t
    → p < d.binding.total_pages
    → sendable d.config.width t p ≡ true
    → let last = find_last (d.binding.total_pages - 1 - p) p d.config.width t in
      Window (picture_of d) t (begin_job d.flush t p last)
unfolding begin_job
begin_job-Window g d t p m w h sends =
    let l = find_last-le (d.binding.total_pages - 1 - p) p d.config.width t in
    let c = w.on_panel p (omega (arith, h, m.shape.total)) in
    record {
      page_in = h;
      end_in = ground (arith, l, h, m.shape.total);
      low = omega arith;
      high = omega arith;
      ordered = ground (arith, sends);
      on_panel = c;
    }

select_found :
    (g : Gddram) (d : Driver) (first : Option ℕ) (t : Dirty)
    → Prepared g d
    → Searched (picture_of d) d.binding.total_pages (shown g d.bus.sent) (first, t)
    → Requested g (elim first [
      | none ↦ record d { dirty = t; flush = record (d.flush) { state = FlushState.idle } }
      | some p ↦
          let last = find_last (d.binding.total_pages - 1 - p) p d.config.width t in
          record d { dirty = t; flush = begin_job d.flush t p last }
    ])
unfolding begin_job
select_found g d none t m s = record {
  prepared = with_dirty-Prepared g d t _ m s.windows s.shows;
  mirrors = λ f. absurd (ground (arith, f));
}
select_found g d (some p) t m s =
    let q = with_dirty-Prepared g d t _ m s.windows s.shows in
    record {
      prepared = q;
      mirrors = λ f. record {
        shape = q.shape;
        full = q.full;
        windows = q.windows;
        shows = q.shows;
        window =
            let w = begin_job-Window g d t p m s.windows (s.found).0 (s.found).1 in
            Window-same _ _ (begin_job d.flush t p _) _ (refl, refl, refl, refl) w;
        ready = omega arith;
      };
    }

select_pages-Requested : (g : Gddram) (d : Driver) → Prepared g d → Requested g (select_pages d)
unfolding select_pages
select_pages-Requested g d m =
    let v = picture_of d in
    let s =
      find_first-Searched v d.binding.total_pages 0 d.binding.total_pages d.dirty
        (shown g d.bus.sent) (m.shape.width_in).0 (m.shape.total).0 (m.shape.total).0 (omega arith)
        m.windows m.shows in
    let (first, t) = find_first d.binding.total_pages 0 d.config.width d.dirty in
    select_found g d first t m s

-- Health accounting and the end of an earlier flush leave all of it alone.
record Settled (d e : Driver) : Type 0 where
  pub config : e.config ≡ d.config
  pub attached : e.binding.attached ≡ d.binding.attached
  pub buffer : e.binding.buffer ≡ d.binding.buffer
  pub total_pages : e.binding.total_pages ≡ d.binding.total_pages
  pub dirty : e.dirty ≡ d.dirty
  pub sent : e.bus.sent ≡ d.bus.sent
  pub paging : e.paging ≡ d.paging

Settled-Prepared : (g : Gddram) (d e : Driver) → Settled d e → Prepared g d → Prepared g e
Settled-Prepared g d e q m =
    let v : SameView d e = record {
      config = q.config;
      buffer = q.buffer;
      total_pages = q.total_pages;
      marks = ground (arith, q.dirty);
      sent = q.sent;
    } in
    record {
      shape = ground (arith, q, m.shape);
      full = ground (arith, q, m.full);
      windows = rw (q.config, q.dirty) m.windows;
      shows = Shown-same g d e v m.shows;
    }

consume_terminal_flush-Settled : (d : Driver) → Settled d (consume_terminal_flush d).1
unfolding consume_terminal_flush
consume_terminal_flush-Settled d =
    ground (arith, update_health-Bookkept d success, update_health-Bookkept d (flush_failure d))

-- What an accepted request leaves.
record Accepts (g : Gddram) (r : Status × Driver) : Type 0 where
  pub requested : is_ok r.0 ≡ true → Requested g r.1

if-Accepts :
    (g : Gddram) (b : Bool) (r s : Status × Driver)
    → Accepts g r
    → Accepts g s
    → Accepts g (if b then r else s)
if-Accepts g true r s x y = x
if-Accepts g false r s x y = y

refuses : (g : Gddram) (d : Driver) (x : Err) → value x ≢ 0 → Accepts g (error x, d)
refuses g d x a = record { requested = λ y. absurd (ground (arith, y, a)) }

request_flush_internal-Accepts :
    (g : Gddram) (d : Driver) → Prepared g d → Accepts g (request_flush_internal d)
unfolding request_flush_internal
request_flush_internal-Accepts g d m =
    let d1 = (consume_terminal_flush d).1 in
    let p = Settled-Prepared g d d1 (consume_terminal_flush-Settled d) m in
    let d2 = record d1 { flush = zero_counters d1.flush } in
    let p2 = with_dirty-Prepared g d1 d1.dirty (zero_counters d1.flush) p p.windows p.shows in
    let idle = record d2 { flush = record (d2.flush) { state = FlushState.idle } } in
    let nothing : Accepts g (success, idle) = record {
      requested = λ x. record {
        prepared = with_dirty-Prepared g d1 d1.dirty _ p p.windows p.shows;
        mirrors = λ f. absurd (ground (arith, f));
      };
    } in
    let selected : Accepts g (success, select_pages d2) = record {
      requested = λ x. select_pages-Requested g d2 p2;
    } in
    if-Accepts g _ _ _ (refuses g d Err.not_initialized (omega arith)) (
      if-Accepts g _ _ _ (refuses g d1 Err.busy (omega arith)) (
        if-Accepts g _ _ _ (refuses g d1 Err.control_state_unknown (omega arith)) (
          if-Accepts g _ _ _ nothing
            (if-Accepts g _ _ _ (refuses g d2 Err.state_error (omega arith)) selected))))

-- A request that is accepted, on a full framebuffer and a memory that holds it wherever nothing is
-- due: the memory still does, and the flush that is under way, if there is one, has all that its
-- polls need.
pub request_flush-Requested :
    (g : Gddram) (d : Driver)
    → Prepared g d
    → is_ok (request_flush d).0 ≡ true
    → Requested g (request_flush d).1
unfolding request_flush
request_flush-Requested g d m =
    let a =
      if-Accepts g (operation_active d || d.operation.result_ready) _ _
        (refuses g d Err.busy (omega arith)) (request_flush_internal-Accepts g d m) in
    a.requested

-- Where nothing at all is due, the memory holds the whole framebuffer.
pub Shown_whole :
    (g : Gddram) (d : Driver) (p c : ℕ)
    → Shown g d
    → d.dirty.pages ≡ 0
    → p < d.binding.total_pages
    → c < d.config.width
    → p < 8
    → (shown g d.bus.sent).ram p c ≡ (picture_of d).byte p c
Shown_whole g d p c s h x y k =
    let z = has_bit_zero p k in
    let e : has_bit d.dirty.pages p ≡ false = rw h z in s.shows p c x y (inl e)
