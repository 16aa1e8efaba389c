-- ===== src/Traffic/Quiet.antt =====
-- What the bookkeeping of src/SSD1315.cpp leaves alone: health accounting, dirty marks, and the
-- ends of flushes and operations hand nothing to the write callback.
use ssd.Common.{ℕ, ◌≡◌, ◌∙◌, refl, arith}
use ssd.Status.{Status, success}
use ssd.Driver.{Driver, FlushState}
use ssd.Health.{
  now_ms, record_outcome, update_health, settle_page_flush, page_iteration_flush_result,
  flush_failure,
}
use ssd.Power.{tick_power_on}
use ssd.Frame.Dirty.{mark_pages, mark_all_dirty}
use ssd.Flush.Terminal.{
  keep_full_rewrite, publish_flush, with_flush_error, fail_flush, consume_terminal_flush,
}
use ssd.Flush.Poll.{certify_baseline, finish_flush, latch_start}

-- Only the clock reads, the last error and the health counters differ.
pub record Bookkept (d e : Driver) : Type 0 where
  pub config : e.config ≡ d.config
  pub sent : e.bus.sent ≡ d.bus.sent
  pub attached : e.binding.attached ≡ d.binding.attached
  pub initialized : e.binding.initialized ≡ d.binding.initialized
  pub buffer : e.binding.buffer ≡ d.binding.buffer
  pub total_pages : e.binding.total_pages ≡ d.binding.total_pages
  pub panel : e.panel ≡ d.panel
  pub dirty : e.dirty ≡ d.dirty
  pub flush : e.flush ≡ d.flush
  pub operation : e.operation ≡ d.operation
  pub paging : e.paging ≡ d.paging

pub record_outcome-Bookkept : (d : Driver) (st : Status) → Bookkept d (record_outcome d st)
unfolding record_outcome now_ms
record_outcome-Bookkept d st = ground arith

pub update_health-Bookkept : (d : Driver) (st : Status) → Bookkept d (update_health d st)
unfolding update_health
update_health-Bookkept d st = ground (arith, record_outcome-Bookkept d st)

-- Only the dirty state differs.
pub record OnlyDirty (d e : Driver) : Type 0 where
  pub config : e.config ≡ d.config
  pub bus : e.bus ≡ d.bus
  pub binding : e.binding ≡ d.binding
  pub panel : e.panel ≡ d.panel
  pub flush : e.flush ≡ d.flush
  pub operation : e.operation ≡ d.operation
  pub paging : e.paging ≡ d.paging
  pub health : e.health ≡ d.health

pub mark_all_dirty-OnlyDirty : (d : Driver) → OnlyDirty d (mark_all_dirty d)
unfolding mark_all_dirty mark_pages
mark_all_dirty-OnlyDirty d = ground arith

-- Nothing is sent, and the flush counters stay.
pub record Still (d e : Driver) : Type 0 where
  pub sent : e.bus.sent ≡ d.bus.sent
  pub count : e.flush.transaction_count ≡ d.flush.transaction_count
  pub bytes : e.flush.bytes_completed ≡ d.flush.bytes_completed
  pub operation : e.operation ≡ d.operation

pub settle_page_flush-Still : (d : Driver) → Still d (settle_page_flush d)
unfolding settle_page_flush
settle_page_flush-Still d = ground (arith, update_health-Bookkept d (page_iteration_flush_result d))

pub tick_power_on-Still : (d : Driver) (now : ℕ) → Still d (tick_power_on d now)
unfolding tick_power_on
tick_power_on-Still d now = ground arith

pub latch_start-Still : (d : Driver) (now : ℕ) → Still d (latch_start d now)
unfolding latch_start
latch_start-Still d now = ground arith

pub Still-trans : {d e f : Driver} → Still d e → Still e f → Still d f
Still-trans p q = record {
  sent = q.sent ∙ p.sent;
  count = q.count ∙ p.count;
  bytes = q.bytes ∙ p.bytes;
  operation = q.operation ∙ p.operation;
}

pub keep_full_rewrite-OnlyDirty : (d : Driver) → OnlyDirty d (keep_full_rewrite d)
unfolding keep_full_rewrite
keep_full_rewrite-OnlyDirty d = ground (arith, mark_all_dirty-OnlyDirty d)

pub publish_flush-Still : (d : Driver) (st : Status) → Still d (publish_flush d st)
unfolding publish_flush
publish_flush-Still d st = ground (arith, update_health-Bookkept d st)

pub certify_baseline-Still : (d : Driver) → Still d (certify_baseline d)
unfolding certify_baseline
certify_baseline-Still d = ground arith

pub fail_flush-Still : (d : Driver) (st : Status) → Still d (fail_flush d st)
unfolding fail_flush
fail_flush-Still d st = ground (
  arith,
  keep_full_rewrite-OnlyDirty d,
  publish_flush-Still (with_flush_error (keep_full_rewrite d) st) st,
)

pub finish_flush-Still : (d : Driver) → Still d (finish_flush d)
unfolding finish_flush
finish_flush-Still d =
    let done = record d { flush = record (d.flush) { state = FlushState.done } } in
    Still-trans
      (Still-trans (record { sent = refl; count = refl; bytes = refl; operation = refl })
        (certify_baseline-Still done))
      (publish_flush-Still (certify_baseline done) success)

pub consume_terminal_flush-Still : (d : Driver) → Still d (consume_terminal_flush d).1
unfolding consume_terminal_flush
consume_terminal_flush-Still d =
    ground (arith, update_health-Bookkept d success, update_health-Bookkept d (flush_failure d))
