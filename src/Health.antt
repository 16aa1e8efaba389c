-- ===== src/Health.antt =====
-- Transport health: _nowMs and _updateHealth of src/SSD1315.cpp, with the settling of a page
-- window's flush result that precedes a direct command.
pub mod Runs
use ssd.Common.{
  ℕ, Bool, true, false, none, some, ◌+◌, ltb, leb, not, ◌&&◌, ◌||◌, uint32_max, if◌then◌else◌,
}
use ssd.Status.{Status, Err, DriverState, is_ok, is_in_progress, success, error}
use ssd.Driver.{Driver, Health, FlushState, operation_active}

-- The clock hook, or 0 without one.
unfoldable pub now_ms : Driver → ℕ × Driver
now_ms d = elim d.config.now_ms [
  | none ↦ (0, d)
  | some f ↦ (
    f d.bus.clock_reads,
    record d { bus = record (d.bus) { clock_reads = d.bus.clock_reads + 1 } },
  )
]

-- The counters after a counted outcome, observed at `now`.
unfoldable pub count_outcome : Bool → ℕ → Health → Health
count_outcome true now h = record h {
  last_ok_ms = now;
  consecutive_failures = 0;
  total_success = if ltb h.total_success uint32_max then h.total_success + 1 else h.total_success;
}
count_outcome false now h = record h {
  last_error_ms = now;
  consecutive_failures =
      if ltb h.consecutive_failures 255 then h.consecutive_failures + 1 else h.consecutive_failures;
  total_failures =
      if ltb h.total_failures uint32_max then h.total_failures + 1 else h.total_failures;
}

-- The state after a counted outcome. Transitions wait for a completed initialization.
unfoldable pub classify : Bool → Bool → ℕ → Health → Health
classify initialized ok threshold h = if not initialized then h else record h {
  driver_state =
      if ok
      then DriverState.ready
      else if leb threshold h.consecutive_failures
      then DriverState.offline
      else DriverState.degraded;
}

-- The counted part of `_updateHealth`.
unfoldable pub record_outcome : Driver → Status → Driver
record_outcome d st =
    let (now, e) = now_ms d in
    let b = e.binding in
    record e {
      binding = if is_ok st then b else record b { last_error = st };
      health =
          classify b.initialized (is_ok st) d.config.offline_threshold
            (count_outcome (is_ok st) now e.health);
    }

unfoldable pub update_health : Driver → Status → Driver
update_health d st =
    if not d.binding.attached || is_in_progress st || operation_active d
    then d
    else record_outcome d st

abbrev pub is_done : FlushState → Bool
is_done FlushState.done = true
is_done _ = false

abbrev pub is_error : FlushState → Bool
is_error FlushState.error = true
is_error _ = false

-- _pageIterationOwnsFlushResult
abbrev pub page_iteration_owns_flush_result : Driver → Bool
page_iteration_owns_flush_result d =
    d.paging.in_page_iteration && (is_done d.flush.state || is_error d.flush.state)

-- `_flushError.ok() ? Error(INTERNAL_ERROR) : _flushError`
abbrev pub flush_failure : Driver → Status
flush_failure d = if is_ok d.flush.error then error Err.internal_error else d.flush.error

-- _pageIterationFlushResult
abbrev pub page_iteration_flush_result : Driver → Status
page_iteration_flush_result d = if not (is_error d.flush.state) then success else flush_failure d

-- `if (_pageIterationOwnsFlushResult() && !_flushAccounted) { _updateHealth(…);
-- _flushAccounted = true; }`, which three operations share.
unfoldable pub settle_page_flush : Driver → Driver
settle_page_flush d =
    if page_iteration_owns_flush_result d && not d.flush.accounted
    then (let e = update_health d (page_iteration_flush_result d) in
        record e { flush = record (e.flush) { accounted = true } })
    else d
