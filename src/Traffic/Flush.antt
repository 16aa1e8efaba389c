-- ===== src/Traffic/Flush.antt =====
-- A flush poll of src/SSD1315.cpp is bounded: at most one transaction for each instruction, and
-- at most the data bytes of its budget.
use ssd.Common.{
  ℕ, zero, suc, List, ◌∷◌, ◌+◌, ◌-◌, ◌≤◌, ◌≡◌, refl, arith, length, saturated_add, u8, get_or, [],
  length-take, ◌==◌, if◌then◌else◌, drop,
}
use ssd.Status.{Status, Err, error}
use ssd.Command
use ssd.Driver.{Driver, Dirty, Frame, FlushJob, FlushState}
use ssd.Transport.{transact, i2c_write_raw}
use ssd.Flush.Poll.{
  Step, stop, next, count_transaction, flush_command, chunk_size, chunk, chunk_offset, buffer_bytes,
  next_window, finish_page, advance_job, after_chunk, send_data_step, flush_instruction, then_run,
  flush_loop, run_flush, latch_start, poll_flush_internal, poll_flush,
}
use ssd.Power.{tick_power_on}
use ssd.Traffic.Quiet.{
  Still, fail_flush-Still, finish_flush-Still, consume_terminal_flush-Still, latch_start-Still,
  tick_power_on-Still,
}

-- The data bytes of a frame, behind its control byte.
unfoldable pub payload : List ℕ → ℕ
payload [] = 0
payload (control ∷ bytes) = if control == Command.ctrl_data then length bytes else 0

-- The data bytes that were handed to the write callback.
unfoldable pub data_bytes : List Frame → ℕ
data_bytes [] = 0
data_bytes (f ∷ fs) = payload f.bytes + data_bytes fs

-- At most one frame more, and nothing else changed.
pub record OneFrame (d e : Driver) : Type 0 where
  pub sent : length e.bus.sent ≤ length d.bus.sent + 1
  pub config : e.config ≡ d.config
  pub binding : e.binding ≡ d.binding
  pub panel : e.panel ≡ d.panel
  pub dirty : e.dirty ≡ d.dirty
  pub flush : e.flush ≡ d.flush
  pub operation : e.operation ≡ d.operation
  pub paging : e.paging ≡ d.paging
  pub health : e.health ≡ d.health

pub i2c_write_raw-OneFrame : (d : Driver) (bytes : List ℕ) → OneFrame d (i2c_write_raw d bytes).1
unfolding i2c_write_raw transact
i2c_write_raw-OneFrame d bytes = ground arith

-- Its data bytes are all that is added.
i2c_write_raw_carries :
    (d : Driver) (bytes : List ℕ)
    → data_bytes (i2c_write_raw d bytes).1.bus.sent ≤ data_bytes d.bus.sent + payload bytes
unfolding i2c_write_raw transact data_bytes
i2c_write_raw_carries d bytes = ground arith

-- What `n` instructions and `b` bytes of budget allow: the frames that were sent are all counted.
pub record Spent (n b : ℕ) (d e : Driver) : Type 0 where
  pub sent :
      length e.bus.sent + d.flush.transaction_count ≤ length d.bus.sent + e.flush.transaction_count
  pub grows : d.flush.transaction_count ≤ e.flush.transaction_count
  pub count : e.flush.transaction_count ≤ d.flush.transaction_count + n
  pub bytes : e.flush.bytes_completed ≤ d.flush.bytes_completed + b
  pub carried : data_bytes e.bus.sent ≤ data_bytes d.bus.sent + b

-- One round: what it leaves of the budget, it has not spent.
abbrev RoundSpent : ℕ → Driver → Step → Type 0
RoundSpent b d (stop st e) = Spent 1 b d e
RoundSpent b d (next e left) = (left ≤ b) × Spent 1 (b - left) d e

flush_command-Spent :
    (d : Driver) (bytes : List ℕ) (s : FlushState) (col b : ℕ)
    → d.flush.transaction_count + 1 ≤ 65535
    → payload bytes ≡ 0
    → RoundSpent b d (flush_command d bytes s col b)
unfolding flush_command
flush_command-Spent d bytes s col b h z = ground (
  arith,
  i2c_write_raw_carries d bytes,
  i2c_write_raw-OneFrame d bytes,
  fail_flush-Still (count_transaction (i2c_write_raw d bytes).1) (i2c_write_raw d bytes).0,
)

saturated_add-le : (a b : ℕ) → saturated_add a b ≤ a + b
unfolding saturated_add
saturated_add-le a b = ground arith

pub next_window-counters :
    (n : ℕ) (t : Dirty) (j : FlushJob)
    → let (found, k) = next_window n t j in
      (k.transaction_count ≡ j.transaction_count) × (k.bytes_completed ≡ j.bytes_completed)
unfolding next_window
next_window-counters zero t j = (refl, refl)
next_window-counters (suc n) t j = ground (
  arith,
  next_window-counters n t (record j { page = u8 (j.page + 1) }),
  next_window-counters n t (record j {
    min_col = get_or t.min_col j.page 0;
    max_col = get_or t.max_col j.page 0;
    page = u8 (j.page + 1);
  }),
)

-- The end of a data instruction sends nothing.
abbrev pub RoundStill : ℕ → Driver → Step → Type 0
RoundStill b d (stop st e) = Still d e
RoundStill b d (next e left) = (left ≡ b) × Still d e

pub after_chunk-Still : (d : Driver) (b : ℕ) → RoundStill b d (after_chunk d b)
unfolding after_chunk finish_page
after_chunk-Still d b =
    let d1 = finish_page d in
    let w = next_window (d1.flush.end_page + 1 - d1.flush.page) d1.dirty d1.flush in
    ground (
      arith,
      next_window-counters (d1.flush.end_page + 1 - d1.flush.page) d1.dirty d1.flush,
      finish_flush-Still (record d1 { flush = w.1 }),
    )

pub chunk_size-le : (d : Driver) (b : ℕ) → chunk_size d b ≤ b
unfolding chunk_size
chunk_size-le d b = omega arith

chunk_carries : (d : Driver) (b : ℕ) → payload (Command.ctrl_data ∷ chunk d b) ≤ chunk_size d b
unfolding payload chunk
chunk_carries d b =
    let l = length-take (chunk_size d b) (drop (chunk_offset d) (buffer_bytes d)) in
    ground (arith, l)

send_data_step-Spent :
    (d : Driver) (b : ℕ)
    → d.flush.transaction_count + 1 ≤ 65535
    → RoundSpent b d (send_data_step d b)
unfolding send_data_step advance_job
send_data_step-Spent d b h =
    let (st, d1) = i2c_write_raw d (Command.ctrl_data ∷ chunk d b) in
    let d2 = count_transaction d1 in
    let d3 = record d2 { flush = advance_job d2.flush (chunk_size d b) } in
    ground (
      arith,
      i2c_write_raw-OneFrame d (Command.ctrl_data ∷ chunk d b),
      i2c_write_raw_carries d (Command.ctrl_data ∷ chunk d b),
      chunk_carries d b,
      fail_flush-Still d2 st,
      after_chunk-Still d3 (b - chunk_size d b),
      chunk_size-le d b,
      saturated_add-le d1.flush.bytes_completed (chunk_size d b),
    )

Spent-zero : (n b : ℕ) (d : Driver) → Spent n b d d
Spent-zero n b d = record {
  sent = omega arith;
  grows = omega arith;
  count = omega arith;
  bytes = omega arith;
  carried = omega arith;
}

flush_instruction-Spent :
    (s : FlushState) (d : Driver) (b : ℕ)
    → d.flush.transaction_count + 1 ≤ 65535
    → RoundSpent b d (flush_instruction s d b)
unfolding flush_instruction payload
flush_instruction-Spent FlushState.set_col_addr d b h = flush_command-Spent d _ _ _ b h refl
flush_instruction-Spent FlushState.set_page_addr d b h = flush_command-Spent d _ _ _ b h refl
flush_instruction-Spent FlushState.send_data d b h = send_data_step-Spent d b h
flush_instruction-Spent _ d b h = Spent-zero 1 b d

then_run-Spent :
    (r : Step) (n b : ℕ) (d : Driver) (rest : Driver → ℕ → Status × Driver)
    → d.flush.transaction_count + suc n ≤ 65535
    → RoundSpent b d r
    → ((e : Driver) (left : ℕ)
        → e.flush.transaction_count + n ≤ 65535
        → Spent n left e (rest e left).1)
    → Spent (suc n) b d (then_run r rest).1
then_run-Spent (stop st e) n b d rest h s more = omega arith
then_run-Spent (next e left) n b d rest h s more = omega (arith, more e left (omega arith))

-- The loop runs at most `n` instructions.
pub flush_loop-Spent :
    (n : ℕ) (d : Driver) (b : ℕ)
    → d.flush.transaction_count + n ≤ 65535
    → Spent n b d (flush_loop n d b).1
unfolding flush_loop
flush_loop-Spent zero d b h = ground (arith, Spent-zero 0 b d)
flush_loop-Spent (suc n) d b h =
    then_run-Spent (flush_instruction d.flush.state d b) n b d (flush_loop n) h
      (flush_instruction-Spent d.flush.state d b (omega arith)) (flush_loop-Spent n)

Spent-of-Still : {n b : ℕ} {d e : Driver} → Still d e → Spent n b d e
Spent-of-Still s = ground arith

run_flush-Spent :
    (d : Driver) (now n b : ℕ)
    → d.flush.transaction_count + n ≤ 65535
    → Spent n b d (run_flush d now n b).1
unfolding run_flush
run_flush-Spent d now n b h = ground (
  arith,
  latch_start-Still d now,
  fail_flush-Still (latch_start d now) (error Err.timeout),
  flush_loop-Spent n (latch_start d now) b,
)

pub poll_flush_internal-Spent :
    (d : Driver) (now n b : ℕ)
    → d.flush.transaction_count + n ≤ 65535
    → Spent n b d (poll_flush_internal d now n b).1
unfolding poll_flush_internal
poll_flush_internal-Spent d now n b h = ground (
  arith,
  tick_power_on-Still d now,
  consume_terminal_flush-Still (tick_power_on d now),
  run_flush-Spent (tick_power_on d now) now n b,
)

-- A flush poll of `n` instructions and `b` bytes hands at most `n` frames to the write callback,
-- and at most `b` data bytes with them, those of failed frames included, while the transaction
-- counter of the job has room for the frames.
pub poll_flush_bounds :
    (d : Driver) (now n b : ℕ)
    → d.flush.transaction_count + n ≤ 65535
    → let e = (poll_flush d now n b).1 in
      (length e.bus.sent ≤ length d.bus.sent + n)
      × (data_bytes e.bus.sent ≤ data_bytes d.bus.sent + b)
unfolding poll_flush
poll_flush_bounds d now n b h = ground (arith, poll_flush_internal-Spent d now n b)
