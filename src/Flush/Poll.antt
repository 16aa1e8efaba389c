-- ===== src/Flush/Poll.antt =====
-- _pollFlushInternal and pollFlush of src/SSD1315.cpp: bounded instructions, each of at most one
-- transaction. `size_t` is 32 bits wide, as on the boards that the driver targets.
pub mod Chunk
use ssd.Common.{
  ℕ, zero, suc, Bool, true, false, none, some, List, [], ◌∷◌, ◌+◌, ◌-◌, ◌*◌, ◌%◌, min, ltb, leb,
  ◌==◌, ◌||◌, ◌&&◌, not, u8, u16, sub32, saturated_add, if◌then◌else◌, get_or, take, drop, has_bit,
}
use ssd.Status.{Status, Err, PanelPowerState, success, error, is_ok}
use ssd.Command
use ssd.Config.{max_data_bytes_for_write_capacity}
use ssd.Driver.{Driver, Dirty, FlushJob, FlushState, operation_active, is_flushing}
use ssd.Frame.Geometry.{is_page_buffer_mode, get_buffer_size}
use ssd.Health.{
  page_iteration_owns_flush_result, page_iteration_flush_result, flush_failure, is_done, is_error,
}
use ssd.Power.{tick_power_on, is_power, is_power_ready}
use ssd.Transport.{i2c_write_raw}
use ssd.Flush.Terminal.{fail_flush, publish_flush, consume_terminal_flush}
use ssd.Flush.Request.{clear_page}

abbrev pub flush_data_chunk_bytes : ℕ
flush_data_chunk_bytes = 128

-- How an instruction leaves the loop: it returns, or goes on with the data budget left.
pub data Step : Type 0 where
  stop : Status → Driver → Step
  next : Driver → ℕ → Step

-- `if (_flushTransactionCount < UINT16_MAX) ++_flushTransactionCount;`
abbrev pub count16 : ℕ → ℕ
count16 n = if ltb n 65535 then n + 1 else n

abbrev pub count_transaction : Driver → Driver
count_transaction d = record d {
  flush = record (d.flush) { transaction_count = count16 d.flush.transaction_count };
}

-- A command frame of the job. Success goes on in state `then_state` at column `then_col`.
unfoldable pub flush_command : Driver → List ℕ → FlushState → ℕ → ℕ → Step
flush_command d bytes then_state then_col budget =
    let (st, d1) = i2c_write_raw d bytes in
    let d2 = count_transaction d1 in
    if not (is_ok st)
    then stop st (fail_flush d2 st)
    else next (record d2 { flush = record (d2.flush) { state = then_state; col = then_col } })
        budget

-- The bytes of the page from the current column on, as far as a chunk, the transport and the
-- budget allow.
unfoldable pub chunk_size : Driver → ℕ → ℕ
chunk_size d budget =
    min
      (min (min (sub32 (d.flush.max_col + 1) d.flush.col) flush_data_chunk_bytes)
        (max_data_bytes_for_write_capacity d.config.max_write_bytes))
      budget

unfoldable pub chunk_offset : Driver → ℕ
chunk_offset d = d.flush.col + d.flush.page % d.config.page_buffer_pages * d.config.width

abbrev pub buffer_bytes : Driver → List ℕ
buffer_bytes d = elim d.binding.buffer [ none ↦ [] | some s ↦ s.bytes ]

unfoldable pub chunk : Driver → ℕ → List ℕ
chunk d budget = take (chunk_size d budget) (drop (chunk_offset d) (buffer_bytes d))

-- The search for the next dirty page, `n` pages left.
unfoldable pub next_window : ℕ → Dirty → FlushJob → Bool × FlushJob
next_window zero t j = (false, j)
next_window (suc n) t j =
    let j1 = record j {
      min_col = get_or t.min_col j.page 0;
      max_col = get_or t.max_col j.page 0;
    } in
    elim (has_bit t.pages j.page) [
      | false ↦ next_window n t (record j { page = u8 (j.page + 1) })
      | true ↦ elim (leb j1.min_col j1.max_col) [
        | false ↦ next_window n t (record j1 { page = u8 (j.page + 1) })
        | true ↦ (
          true,
          record j1 {
            col = j1.min_col;
            page_generation = get_or t.generation j.page 0;
            state = FlushState.set_col_addr;
          },
        )
      ]
    ]

-- A page has been transferred: it is clean unless a drawing call touched it meanwhile.
unfoldable pub finish_page : Driver → Driver
finish_page d = record d {
  dirty =
      if get_or d.dirty.generation d.flush.page 0 == d.flush.page_generation
      then clear_page d.dirty d.flush.page
      else d.dirty;
  flush = record (d.flush) { page = u8 (d.flush.page + 1) };
}

-- A job that wrote every byte of the panel is a complete baseline.
unfoldable pub certify_baseline : Driver → Driver
certify_baseline d =
    if not (is_page_buffer_mode d) && d.flush.bytes_completed == get_buffer_size d
    then record d { dirty = record (d.dirty) { gddram_synchronized = true } }
    else d

-- No page is left.
unfoldable pub finish_flush : Driver → Driver
finish_flush d =
    publish_flush
      (certify_baseline (record d { flush = record (d.flush) { state = FlushState.done } })) success

-- The job after `sent` bytes of its window were confirmed.
unfoldable pub advance_job : FlushJob → ℕ → FlushJob
advance_job j sent = record j {
  col = u16 (j.col + sent);
  bytes_completed = saturated_add j.bytes_completed sent;
  data_chunk_count = count16 j.data_chunk_count;
}

-- The end of a data instruction: the page goes on, the next window begins, or the job is done.
unfoldable pub after_chunk : Driver → ℕ → Step
after_chunk d budget =
    if leb d.flush.col d.flush.max_col
    then next d budget
    else let d1 = finish_page d in
      let (found, j) = next_window (d1.flush.end_page + 1 - d1.flush.page) d1.dirty d1.flush in
      let d2 = record d1 { flush = j } in
      if found then next d2 budget else stop success (finish_flush d2)

unfoldable pub send_data_step : Driver → ℕ → Step
send_data_step d budget =
    if budget == 0
    then stop (error Err.in_progress) d
    else let sent = chunk_size d budget in
      let (st, d1) = i2c_write_raw d (Command.ctrl_data ∷ chunk d budget) in
      let d2 = count_transaction d1 in
      if not (is_ok st)
      then stop st (fail_flush d2 st)
      else after_chunk (record d2 { flush = advance_job d2.flush sent }) (budget - sent)

-- One round of the loop: one instruction.
unfoldable pub flush_instruction : FlushState → Driver → ℕ → Step
flush_instruction FlushState.set_col_addr d budget =
    flush_command d
      (Command.ctrl_command ∷ Command.set_col_addr ∷ d.flush.min_col ∷ d.flush.max_col ∷ [])
      FlushState.set_page_addr d.flush.col budget
flush_instruction FlushState.set_page_addr d budget =
    flush_command d
      (Command.ctrl_command ∷ Command.set_page_addr ∷ d.flush.page ∷ d.flush.page ∷ [])
      FlushState.send_data d.flush.min_col budget
flush_instruction FlushState.send_data d budget = send_data_step d budget
flush_instruction _ d budget = stop success d

-- A round that returns, or goes on with `rest`.
abbrev pub then_run : Step → (Driver → ℕ → Status × Driver) → Status × Driver
then_run (stop st e) rest = (st, e)
then_run (next e left) rest = rest e left

-- The loop, on the instructions left.
unfoldable pub flush_loop : ℕ → Driver → ℕ → Status × Driver
flush_loop zero d budget =
    if is_done d.flush.state
    then (success, d)
    else if is_error d.flush.state
    then (flush_failure d, d)
    else (error Err.in_progress, d)
flush_loop (suc n) d budget = then_run (flush_instruction d.flush.state d budget) (flush_loop n)

-- The start time is latched on the first poll.
unfoldable pub latch_start : Driver → ℕ → Driver
latch_start d now = if d.flush.started then d else record d {
  flush = record (d.flush) { started = true; start_ms = now; error = success; accounted = false };
}

-- GDDRAM takes data once the panel is ready, or while it is confirmed off.
abbrev pub panel_accepts_data : Driver → Bool
panel_accepts_data d =
    is_power_ready d.panel.power_state
    || not d.panel.control_state_dirty && is_power d.panel.panel_power_state PanelPowerState.off

-- The active part of a poll: the timeout, the panel's readiness, then the instructions.
unfoldable pub run_flush : Driver → ℕ → ℕ → ℕ → Status × Driver
run_flush d now max_instructions budget =
    let d1 = latch_start d now in
    if ltb 0 d1.config.flush_timeout_ms
      && leb d1.config.flush_timeout_ms (sub32 now d1.flush.start_ms)
    then (error Err.timeout, fail_flush d1 (error Err.timeout))
    else if not (panel_accepts_data d1)
    then (error Err.in_progress, d1)
    else flush_loop max_instructions d1 budget

unfoldable pub poll_flush_internal : Driver → ℕ → ℕ → ℕ → Status × Driver
poll_flush_internal d now max_instructions budget =
    if not d.binding.initialized
    then (error Err.not_initialized, d)
    else if not (max_instructions == 0) && budget == 0
    then (error Err.invalid_config, d)
    else let d1 = tick_power_on d now in
      if page_iteration_owns_flush_result d1
      then (page_iteration_flush_result d1, d1)
      else if not (is_flushing d1)
      then consume_terminal_flush d1
      else if max_instructions == 0
      then (error Err.in_progress, d1)
      else run_flush d1 now max_instructions budget

unfoldable pub poll_flush : Driver → ℕ → ℕ → ℕ → Status × Driver
poll_flush d now max_instructions budget =
    if operation_active d || d.operation.result_ready
    then (error Err.busy, d)
    else poll_flush_internal d now max_instructions budget
