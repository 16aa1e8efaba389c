-- ===== src/Traffic/Request.antt =====
-- A flush request of src/SSD1315.cpp hands nothing to the write callback and leaves the operation
-- alone.
use ssd.Common.{◌≡◌, ◌≤◌, arith}
use ssd.Status.{success}
use ssd.Driver.{Driver}
use ssd.Health.{flush_failure, settle_page_flush, page_iteration_flush_result}
use ssd.Flush.Terminal.{consume_terminal_flush}
use ssd.Flush.Request.{begin_job, zero_counters, select_pages, request_flush_internal}
use ssd.Traffic.Quiet.{update_health-Bookkept}

pub record Untouched (d e : Driver) : Type 0 where
  pub sent : e.bus.sent ≡ d.bus.sent
  pub operation : e.operation ≡ d.operation
  pub count : e.flush.transaction_count ≤ d.flush.transaction_count
  pub config : e.config ≡ d.config
  pub initialized : e.binding.initialized ≡ d.binding.initialized

pub settle_page_flush-Untouched : (d : Driver) → Untouched d (settle_page_flush d)
unfolding settle_page_flush
settle_page_flush-Untouched d =
    ground (arith, update_health-Bookkept d (page_iteration_flush_result d))

consume_terminal_flush-Untouched : (d : Driver) → Untouched d (consume_terminal_flush d).1
unfolding consume_terminal_flush
consume_terminal_flush-Untouched d =
    ground (arith, update_health-Bookkept d success, update_health-Bookkept d (flush_failure d))

select_pages-Untouched : (d : Driver) → Untouched d (select_pages d)
unfolding select_pages begin_job
select_pages-Untouched d = ground arith

pub request_flush_internal-Untouched : (d : Driver) → Untouched d (request_flush_internal d).1
unfolding request_flush_internal
request_flush_internal-Untouched d =
    let d1 = (consume_terminal_flush d).1 in
    ground (
      arith,
      consume_terminal_flush-Untouched d,
      select_pages-Untouched (record d1 { flush = zero_counters d1.flush }),
    )
