-- ===== src/Flush/Terminal.antt =====
-- _failFlush and _consumeTerminalFlush of src/SSD1315.cpp.
use ssd.Common.{true, false, ◌&&◌, not, if◌then◌else◌}
use ssd.Status.{Status, success}
use ssd.Driver.{Driver, FlushState, operation_active}
use ssd.Frame.Geometry.{is_page_buffer_mode}
use ssd.Frame.Dirty.{mark_all_dirty}
use ssd.Health.{update_health, flush_failure}

-- Completed pages alone are no complete baseline: a full rewrite is kept for a retry.
unfoldable pub keep_full_rewrite : Driver → Driver
keep_full_rewrite d =
    if not d.dirty.gddram_synchronized && not (is_page_buffer_mode d) then mark_all_dirty d else d

-- Outside page iteration and operations the flush publishes its own outcome.
unfoldable pub publish_flush : Driver → Status → Driver
publish_flush d st =
    if not d.paging.in_page_iteration && not (operation_active d)
    then (let e = update_health d st in record e { flush = record (e.flush) { accounted = true } })
    else d

abbrev pub with_flush_error : Driver → Status → Driver
with_flush_error d st = record d {
  flush = record (d.flush) { error = st; state = FlushState.error };
  binding = record (d.binding) { last_error = st };
}

unfoldable pub fail_flush : Driver → Status → Driver
fail_flush d st = publish_flush (with_flush_error (keep_full_rewrite d) st) st

unfoldable pub consume_terminal_flush : Driver → Status × Driver
consume_terminal_flush d = elim d.flush.state [
  | FlushState.done ↦
      let e = if d.flush.accounted then d else update_health d success in
      (
        success,
        record e { flush = record (e.flush) { accounted = false; state = FlushState.idle } },
      )
  | FlushState.error ↦
      let failure = flush_failure d in
      let e = if d.flush.accounted then d else update_health d failure in
      (
        failure,
        record e {
          flush = record (e.flush) { error = failure; accounted = false; state = FlushState.idle };
        },
      )
  | _ ↦ (success, d)
]
