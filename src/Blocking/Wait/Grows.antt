-- ===== src/Blocking/Wait/Grows.antt =====
-- What a tick of waitFlush of src/SSD1315.cpp leaves: the counters that tell its progress only grow,
-- up to their limits.
use ssd.Common.{
  ℕ, zero, suc, List, ◌∷◌, ◌+◌, ◌-◌, ◌≤◌, ◌≡◌, arith, saturated_add, false, ◌∙◌, ltb, if◌then◌else◌,
}
use ssd.Status.{Status, Err, error, success}
use ssd.Command
use ssd.Driver.{Driver, FlushState, operation_active}
use ssd.Health.{now_ms, record_outcome, update_health, flush_failure}
use ssd.Power.{tick_power_on, tick_delay}
use ssd.Transport.{transact, i2c_write_raw}
use ssd.Flush.Terminal.{
  keep_full_rewrite, with_flush_error, publish_flush, fail_flush, consume_terminal_flush,
}
use ssd.Flush.Poll.{
  Step, stop, next, count_transaction, flush_command, chunk_size, chunk, next_window, finish_page,
  advance_job, after_chunk, certify_baseline, finish_flush, send_data_step, flush_instruction,
  then_run, flush_loop, run_flush, latch_start, poll_flush_internal, poll_flush,
}
use ssd.Traffic.Quiet.{keep_full_rewrite-OnlyDirty}
use ssd.Traffic.Flush.{next_window-counters}
use ssd.Lifecycle.{tick}
use ssd.Blocking.Wait.{power_value, bounded_tick}

-- The counters are in their ranges.
pub record InRange (d : Driver) : Type 0 where
  pub count : d.flush.transaction_count ≤ 65535
  pub bytes : d.flush.bytes_completed ≤ 4294967295

pub record Grows (d e : Driver) : Type 0 where
  pub config : e.config ≡ d.config
  pub operation : e.operation ≡ d.operation
  pub count : d.flush.transaction_count ≤ e.flush.transaction_count
  pub bytes : d.flush.bytes_completed ≤ e.flush.bytes_completed
  pub power : power_value d.panel.power_state ≤ power_value e.panel.power_state
  pub reads : d.bus.clock_reads ≤ e.bus.clock_reads
  pub kept : InRange e

record_outcome-Grows : (d : Driver) (st : Status) → InRange d → Grows d (record_outcome d st)
unfolding record_outcome now_ms
record_outcome-Grows d st r = ground (arith, r)

update_health-Grows : (d : Driver) (st : Status) → InRange d → Grows d (update_health d st)
unfolding update_health
update_health-Grows d st r = ground (arith, record_outcome-Grows d st r, r)

tick_power_on-Grows : (d : Driver) (now : ℕ) → InRange d → Grows d (tick_power_on d now)
unfolding tick_power_on tick_delay
tick_power_on-Grows d now r = ground (arith, r)

latch_start-Grows : (d : Driver) (now : ℕ) → InRange d → Grows d (latch_start d now)
unfolding latch_start
latch_start-Grows d now r = ground (arith, r)

publish_flush-Grows : (d : Driver) (st : Status) → InRange d → Grows d (publish_flush d st)
unfolding publish_flush
publish_flush-Grows d st r = ground (arith, update_health-Grows d st r, r)

fail_flush-Grows : (d : Driver) (st : Status) → InRange d → Grows d (fail_flush d st)
unfolding fail_flush
fail_flush-Grows d st r =
    let k = keep_full_rewrite d in
    let o = keep_full_rewrite-OnlyDirty d in
    let q : InRange (with_flush_error k st) = ground (arith, o, r) in
    let p = publish_flush-Grows (with_flush_error k st) st q in ground (arith, o, p)

finish_flush-Grows : (d : Driver) → InRange d → Grows d (finish_flush d)
unfolding finish_flush certify_baseline
finish_flush-Grows d r =
    let done =
      certify_baseline (record d { flush = record (d.flush) { state = FlushState.done } }) in
    let q : InRange done = ground (arith, r) in
    let p = publish_flush-Grows done success q in ground (arith, p)

consume_terminal_flush-Grows : (d : Driver) → InRange d → Grows d (consume_terminal_flush d).1
unfolding consume_terminal_flush
consume_terminal_flush-Grows d r =
    ground (arith, r, update_health-Grows d success r, update_health-Grows d (flush_failure d) r)

i2c_write_raw-Grows :
    (d : Driver) (bytes : List ℕ)
    → InRange d
    → Grows d (count_transaction (i2c_write_raw d bytes).1)
unfolding i2c_write_raw transact
i2c_write_raw-Grows d bytes r = ground (arith, r)

abbrev StepGrows : Driver → Step → Type 0
StepGrows d (stop st e) = Grows d e
StepGrows d (next e left) = Grows d e

flush_command-Grows :
    (d : Driver) (bytes : List ℕ) (s : FlushState) (col b : ℕ)
    → InRange d
    → StepGrows d (flush_command d bytes s col b)
unfolding flush_command
flush_command-Grows d bytes s col b r =
    let k = i2c_write_raw-Grows d bytes r in
    let f =
      fail_flush-Grows (count_transaction (i2c_write_raw d bytes).1) (i2c_write_raw d bytes).0
        k.kept in
    ground (arith, k, f)

saturated_add-grows :
    (a b : ℕ) → a ≤ 4294967295 → (a ≤ saturated_add a b) × (saturated_add a b ≤ 4294967295)
unfolding saturated_add
saturated_add-grows a b h = ground arith

after_chunk-Grows : (d : Driver) (b : ℕ) → InRange d → StepGrows d (after_chunk d b)
unfolding after_chunk finish_page
after_chunk-Grows d b r =
    let d1 = finish_page d in
    let n = d1.flush.end_page + 1 - d1.flush.page in
    let w = next_window n d1.dirty d1.flush in
    let c = next_window-counters n d1.dirty d1.flush in
    let q : InRange (record d1 { flush = w.1 }) = ground (arith, r, c) in
    let f = finish_flush-Grows (record d1 { flush = w.1 }) q in ground (arith, r, c, f)

send_data_step-Grows : (d : Driver) (b : ℕ) → InRange d → StepGrows d (send_data_step d b)
unfolding send_data_step advance_job
send_data_step-Grows d b r =
    let (st, d1) = i2c_write_raw d (Command.ctrl_data ∷ chunk d b) in
    let d2 = count_transaction d1 in
    let k = i2c_write_raw-Grows d (Command.ctrl_data ∷ chunk d b) r in
    let d3 = record d2 { flush = advance_job d2.flush (chunk_size d b) } in
    let s = saturated_add-grows d2.flush.bytes_completed (chunk_size d b) (k.kept).bytes in
    let q : InRange d3 = ground (arith, k, s) in
    let f = fail_flush-Grows d2 st k.kept in
    let a = after_chunk-Grows d3 (b - chunk_size d b) q in ground (arith, k, s, f, a)

Grows-refl : (d : Driver) → InRange d → Grows d d
Grows-refl d r = ground (arith, r)

Grows-trans : {d e f : Driver} → Grows d e → Grows e f → Grows d f
Grows-trans p q = record {
  config = q.config ∙ p.config;
  operation = q.operation ∙ p.operation;
  count = omega (arith, p.count, q.count);
  bytes = omega (arith, p.bytes, q.bytes);
  power = omega (arith, p.power, q.power);
  reads = omega (arith, p.reads, q.reads);
  kept = q.kept;
}

flush_instruction-Grows :
    (s : FlushState) (d : Driver) (b : ℕ) → InRange d → StepGrows d (flush_instruction s d b)
unfolding flush_instruction
flush_instruction-Grows FlushState.set_col_addr d b r = flush_command-Grows d _ _ _ b r
flush_instruction-Grows FlushState.set_page_addr d b r = flush_command-Grows d _ _ _ b r
flush_instruction-Grows FlushState.send_data d b r = send_data_step-Grows d b r
flush_instruction-Grows _ d b r = Grows-refl d r

then_run-Grows :
    (t : Step) (d : Driver) (rest : Driver → ℕ → Status × Driver)
    → StepGrows d t
    → ((e : Driver) (left : ℕ) → InRange e → Grows e (rest e left).1)
    → Grows d (then_run t rest).1
then_run-Grows (stop st e) d rest g more = g
then_run-Grows (next e left) d rest g more = Grows-trans g (more e left g.kept)

flush_loop-Grows : (n : ℕ) (d : Driver) (b : ℕ) → InRange d → Grows d (flush_loop n d b).1
unfolding flush_loop
flush_loop-Grows zero d b r = let g = Grows-refl d r in ground (arith, g)
flush_loop-Grows (suc n) d b r =
    then_run-Grows (flush_instruction d.flush.state d b) d (flush_loop n)
      (flush_instruction-Grows d.flush.state d b r) (λ e left q. flush_loop-Grows n e left q)

run_flush-Grows : (d : Driver) (now n b : ℕ) → InRange d → Grows d (run_flush d now n b).1
unfolding run_flush
run_flush-Grows d now n b r =
    let l = latch_start-Grows d now r in
    let f = Grows-trans l (fail_flush-Grows (latch_start d now) (error Err.timeout) l.kept) in
    let g = Grows-trans l (flush_loop-Grows n (latch_start d now) b l.kept) in
    ground (arith, l, f, g)

poll_flush_internal-Grows :
    (d : Driver) (now n b : ℕ) → InRange d → Grows d (poll_flush_internal d now n b).1
unfolding poll_flush_internal
poll_flush_internal-Grows d now n b r =
    let t = tick_power_on-Grows d now r in
    let c = Grows-trans t (consume_terminal_flush-Grows (tick_power_on d now) t.kept) in
    let f = Grows-trans t (run_flush-Grows (tick_power_on d now) now n b t.kept) in
    let same = Grows-refl d r in ground (arith, same, t, c, f)

poll_flush-Grows : (d : Driver) (now n b : ℕ) → InRange d → Grows d (poll_flush d now n b).1
unfolding poll_flush
poll_flush-Grows d now n b r =
    let same = Grows-refl d r in
    let p = poll_flush_internal-Grows d now n b r in ground (arith, same, p)

-- A tick without an operation.
tick-Grows :
    (d : Driver) (now : ℕ)
    → operation_active d ≡ false
    → d.operation.result_ready ≡ false
    → InRange d
    → Grows d (tick d now)
unfolding tick
tick-Grows d now i k r =
    let same = Grows-refl d r in
    let t = tick_power_on-Grows d now r in
    let e = tick_power_on d now in
    let p = Grows-trans t (poll_flush-Grows e now 1 e.config.byte_budget_per_tick t.kept) in
    ground (arith, same, t, p)

pub bounded_tick-Grows :
    (d : Driver) (now remaining : ℕ)
    → operation_active d ≡ false
    → d.operation.result_ready ≡ false
    → InRange d
    → Grows d (bounded_tick d now remaining)
unfolding bounded_tick
bounded_tick-Grows d now remaining i k r =
    let saved = d.binding.transport_timeout_ms in
    let b = record d {
      binding = record (d.binding) {
        transport_timeout_ms = if ltb remaining saved then remaining else saved;
      };
    } in
    let q : InRange b = ground (arith, r) in let g = tick-Grows b now i k q in ground (arith, g)
