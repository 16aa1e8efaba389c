-- ===== src/Operation/Turns/Flush.antt =====
-- A flush poll of src/SSD1315.cpp leaves the operation alone.
use ssd.Common.{ℕ, zero, suc, List, ◌∷◌, ◌-◌, ◌∙◌, refl, arith}
use ssd.Status.{Status, Err, error}
use ssd.Command
use ssd.Driver.{Driver, FlushState}
use ssd.Power.{tick_power_on}
use ssd.Transport.{i2c_write_raw}
use ssd.Flush.Poll.{
  Step, stop, next, count_transaction, flush_command, chunk_size, chunk, advance_job,
  send_data_step, flush_instruction, then_run, flush_loop, run_flush, latch_start,
  poll_flush_internal,
}
use ssd.Traffic.Quiet.{
  fail_flush-Still, consume_terminal_flush-Still, latch_start-Still, tick_power_on-Still,
}
use ssd.Traffic.Flush.{i2c_write_raw-OneFrame, after_chunk-Still}
use ssd.Operation.Turns.Keeps.{Keeps}

abbrev RoundKeeps : Driver → Step → Type 0
RoundKeeps d (stop st e) = Keeps d e
RoundKeeps d (next e left) = Keeps d e

flush_command-Keeps :
    (d : Driver) (bytes : List ℕ) (s : FlushState) (col b : ℕ)
    → RoundKeeps d (flush_command d bytes s col b)
unfolding flush_command
flush_command-Keeps d bytes s col b =
    grind (arith, i2c_write_raw-OneFrame d bytes, fail_flush-Still)

send_data_step-Keeps : (d : Driver) (b : ℕ) → RoundKeeps d (send_data_step d b)
unfolding send_data_step
send_data_step-Keeps d b =
    let (st, d1) = i2c_write_raw d (Command.ctrl_data ∷ chunk d b) in
    let d2 = count_transaction d1 in
    let d3 = record d2 { flush = advance_job d2.flush (chunk_size d b) } in
    ground (
      arith,
      i2c_write_raw-OneFrame d (Command.ctrl_data ∷ chunk d b),
      fail_flush-Still d2 st,
      after_chunk-Still d3 (b - chunk_size d b),
    )

flush_instruction-Keeps :
    (s : FlushState) (d : Driver) (b : ℕ) → RoundKeeps d (flush_instruction s d b)
unfolding flush_instruction
flush_instruction-Keeps FlushState.set_col_addr d b = flush_command-Keeps d _ _ _ b
flush_instruction-Keeps FlushState.set_page_addr d b = flush_command-Keeps d _ _ _ b
flush_instruction-Keeps FlushState.send_data d b = send_data_step-Keeps d b
flush_instruction-Keeps _ d b = refl

then_run-Keeps :
    (r : Step) (d : Driver) (rest : Driver → ℕ → Status × Driver)
    → RoundKeeps d r
    → ((e : Driver) (left : ℕ) → Keeps e (rest e left).1)
    → Keeps d (then_run r rest).1
then_run-Keeps (stop st e) d rest k more = k
then_run-Keeps (next e left) d rest k more = more e left ∙ k

flush_loop-Keeps : (n : ℕ) (d : Driver) (b : ℕ) → Keeps d (flush_loop n d b).1
unfolding flush_loop
flush_loop-Keeps zero d b = ground arith
flush_loop-Keeps (suc n) d b =
    then_run-Keeps (flush_instruction d.flush.state d b) d (flush_loop n)
      (flush_instruction-Keeps d.flush.state d b) (flush_loop-Keeps n)

run_flush-Keeps : (d : Driver) (now n b : ℕ) → Keeps d (run_flush d now n b).1
unfolding run_flush
run_flush-Keeps d now n b = ground (
  arith,
  latch_start-Still d now,
  fail_flush-Still (latch_start d now) (error Err.timeout),
  flush_loop-Keeps n (latch_start d now) b,
)

pub poll_flush_internal-Keeps :
    (d : Driver) (now n b : ℕ) → Keeps d (poll_flush_internal d now n b).1
unfolding poll_flush_internal
poll_flush_internal-Keeps d now n b = ground (
  arith,
  tick_power_on-Still d now,
  consume_terminal_flush-Still (tick_power_on d now),
  run_flush-Keeps (tick_power_on d now) now n b,
)
