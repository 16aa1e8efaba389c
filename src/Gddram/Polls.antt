-- ===== src/Gddram/Polls.antt =====
-- pollFlush of src/SSD1315.cpp against the display memory: a whole poll, and what it leaves.
use mathlib.Core.Path.{subst}
use ssd.Common.{
  ℕ, zero, suc, Bool, ◌∷◌, ◌-◌, ◌≡◌, ◌≢◌, inl, inr, refl, ap, sym, ◌∙◌, true, false, arith, ◌==◌,
  Bool-cases, not, if◌then◌else◌,
}
use ssd.Status.{Status, Err, value, error, is_ok, is_in_progress, success}
use ssd.Command
use ssd.Driver.{Driver, Panel, FlushJob, FlushState, is_flushing}
use ssd.Health.{is_done, is_error, page_iteration_owns_flush_result}
use ssd.Power.{tick_power_on}
use ssd.Transport.{i2c_write_raw}
use ssd.Operation.Turns.Keeps.{i2c_write_raw_definite}
use ssd.Flush.Poll.{
  Step, stop, next, then_run, chunk, chunk_size, send_data_step, flush_instruction, flush_loop,
  latch_start, run_flush, poll_flush_internal, poll_flush,
}
use ssd.Gddram.{Gddram}
use ssd.Gddram.Mirror.{Picture, Ready}
use ssd.Gddram.Refines.{
  Shown, Mirrors, Outcome, RoundMirrors, i2c_write_raw_ok, HasShape-same, Window-same, columns_set,
  page_set, flush_command-RoundMirrors,
}
use ssd.Gddram.Data.{after_data, after_data-Sent, after_chunk-RoundMirrors}

send_data_step-RoundMirrors :
    (g : Gddram) (d : Driver) (b : ℕ)
    → d.flush.state ≡ FlushState.send_data
    → Mirrors g d
    → RoundMirrors g (send_data_step d b)
unfolding send_data_step after_data
send_data_step-RoundMirrors g d b h m =
    let bytes = Command.ctrl_data ∷ chunk d b in
    elim (Bool-cases (b == 0)) [
      | inl spent ↦ rw spent (λ x. absurd (ground (arith, x)), λ x. m)
      | inr some_left ↦ elim (Bool-cases (is_ok (i2c_write_raw d bytes).0)) [
        | inl ok ↦
            let r =
              after_chunk-RoundMirrors g (after_data d b) (b - chunk_size d b)
                (after_data-Sent g d b h m) in
            rw (some_left, ok, i2c_write_raw_ok d bytes ok) r
        | inr failed ↦
            rw (some_left, failed)
              (
                λ x. absurd (ground (arith, failed, x)),
                λ x. absurd (ground (arith, x, i2c_write_raw_definite d bytes)),
              )
      ]
    ]

flush_instruction-RoundMirrors :
    (g : Gddram) (s : FlushState) (d : Driver) (b : ℕ)
    → d.flush.state ≡ s
    → Mirrors g d
    → RoundMirrors g (flush_instruction s d b)
unfolding flush_instruction
flush_instruction-RoundMirrors g FlushState.set_col_addr d b h m =
    flush_command-RoundMirrors g d _ _ _ b (columns_set g d m)
flush_instruction-RoundMirrors g FlushState.set_page_addr d b h m =
    flush_command-RoundMirrors g d _ _ _ b (page_set g d h m)
flush_instruction-RoundMirrors g FlushState.send_data d b h m =
    send_data_step-RoundMirrors g d b h m
flush_instruction-RoundMirrors g _ d b h m = (λ x. m.shows, λ x. m)

then_run-Outcome :
    (g : Gddram) (r : Step) (rest : Driver → ℕ → Status × Driver)
    → RoundMirrors g r
    → ((e : Driver) (left : ℕ) → Mirrors g e → let (st, f) = rest e left in Outcome g st f)
    → let (st, f) = then_run r rest in Outcome g st f
then_run-Outcome g (stop st e) rest o more = o
then_run-Outcome g (next e left) rest o more = more e left o

flush_loop-Outcome :
    (g : Gddram) (n : ℕ) (d : Driver) (b : ℕ)
    → Mirrors g d
    → let (st, e) = flush_loop n d b in Outcome g st e
unfolding flush_loop
flush_loop-Outcome g zero d b m = elim (Bool-cases (is_done d.flush.state)) [
  | inl done ↦ rw done (λ x. m.shows, λ x. m)
  | inr other ↦ elim (Bool-cases (is_error d.flush.state)) [
    | inl failed ↦ rw (other, failed) (λ x. m.shows, λ x. m)
    | inr running ↦ rw (other, running) (λ x. m.shows, λ x. m)
  ]
]
flush_loop-Outcome g (suc n) d b m =
    then_run-Outcome g (flush_instruction d.flush.state d b) (flush_loop n)
      (flush_instruction-RoundMirrors g d.flush.state d b refl m)
      (λ e left q. flush_loop-Outcome g n e left q)

-- The clock of a poll: modeled power, and the start of the flush.
ticked :
    (d : Driver) (now : ℕ) → tick_power_on d now ≡ record d { panel = (tick_power_on d now).panel }
unfolding tick_power_on
ticked d now = ground arith

Mirrors-panel :
    (g : Gddram) (d : Driver) (p : Panel) → Mirrors g d → Mirrors g (record d { panel = p })
Mirrors-panel g d p m = record {
  shape = HasShape-same d _ refl refl refl m.shape;
  full = m.full;
  windows = m.windows;
  shows = m.shows;
  window = m.window;
  ready = m.ready;
}

tick_power_on-Mirrors :
    (g : Gddram) (d : Driver) (now : ℕ) → Mirrors g d → Mirrors g (tick_power_on d now)
tick_power_on-Mirrors g d now m =
    subst (λ e. Mirrors g e) (sym (ticked d now)) (Mirrors-panel g d (tick_power_on d now).panel m)

Ready-same :
    (v : Picture) (s : FlushState) (j k : FlushJob) (g : Gddram)
    → (k.page ≡ j.page) × (k.col ≡ j.col) × (k.min_col ≡ j.min_col) × (k.max_col ≡ j.max_col)
    → Ready v s j g
    → Ready v s k g
Ready-same v FlushState.set_page_addr j k g (p, c, n, x) a = record {
  last = a.last ∙ sym x;
  pointer = a.pointer ∙ sym n;
}
Ready-same v FlushState.send_data j k g (p, c, n, x) a = record {
  last = a.last ∙ sym x;
  pointer = a.pointer ∙ sym c;
  one_page = ground (arith, a.one_page, p);
  left = omega (arith, a.left, c, x);
  done = λ y lt o. let e = a.done y (omega (arith, lt, c)) o in rw p e;
}
Ready-same v _ j k g e a = a

-- The job as its first poll leaves it.
latched : FlushJob → ℕ → FlushJob
latched j now = record j { started = true; start_ms = now; error = success; accounted = false }

latch_start_fresh :
    (d : Driver) (now : ℕ)
    → d.flush.started ≡ false
    → latch_start d now ≡ record d { flush = latched d.flush now }
unfolding latch_start latched
latch_start_fresh d now h = ground arith

latch_start_begun : (d : Driver) (now : ℕ) → d.flush.started ≡ true → latch_start d now ≡ d
unfolding latch_start
latch_start_begun d now h = ground arith

latched-Mirrors :
    (g : Gddram) (d : Driver) (now : ℕ)
    → Mirrors g d
    → Mirrors g (record d { flush = latched d.flush now })
unfolding latched
latched-Mirrors g d now m = record {
  shape = HasShape-same d _ refl refl refl m.shape;
  full = m.full;
  windows = m.windows;
  shows = m.shows;
  window = Window-same _ _ d.flush _ (refl, refl, refl, refl) m.window;
  ready = Ready-same _ _ d.flush _ _ (refl, refl, refl, refl) m.ready;
}

latch_start-Mirrors :
    (g : Gddram) (d : Driver) (now : ℕ) → Mirrors g d → Mirrors g (latch_start d now)
latch_start-Mirrors g d now m = elim (Bool-cases d.flush.started) [
  | inl begun ↦ subst (λ e. Mirrors g e) (sym (latch_start_begun d now begun)) m
  | inr fresh ↦
      subst (λ e. Mirrors g e) (sym (latch_start_fresh d now fresh)) (latched-Mirrors g d now m)
]

-- What a poll leaves: after success the memory holds the framebuffer wherever nothing is due, and a
-- flush that goes on has all that its next poll needs.
pub record Polled (g : Gddram) (r : Status × Driver) : Type 0 where
  pub shown : is_ok r.0 ≡ true → Shown g r.1
  pub goes_on : is_in_progress r.0 ≡ true → Mirrors g r.1

if-Polled :
    (g : Gddram) (b : Bool) (r s : Status × Driver)
    → Polled g r
    → Polled g s
    → Polled g (if b then r else s)
if-Polled g true r s x y = x
if-Polled g false r s x y = y

-- An error other than `in_progress` says nothing, and `in_progress` keeps what was known.
errs : (g : Gddram) (d : Driver) (x : Err) → value x ≢ 0 → value x ≢ 20 → Polled g (error x, d)
errs g d x a b = record {
  shown = λ y. absurd (ground (arith, y, a));
  goes_on = λ y. absurd (ground (arith, y, b));
}

waits : (g : Gddram) (d : Driver) → Mirrors g d → Polled g (error Err.in_progress, d)
waits g d m = record { shown = λ y. m.shows; goes_on = λ y. m }

flush_loop-Polled :
    (g : Gddram) (n : ℕ) (d : Driver) (b : ℕ) → Mirrors g d → Polled g (flush_loop n d b)
flush_loop-Polled g n d b m =
    let (s, k) = flush_loop-Outcome g n d b m in record { shown = s; goes_on = k }

run_flush-Polled :
    (g : Gddram) (d : Driver) (now n b : ℕ) → Mirrors g d → Polled g (run_flush d now n b)
unfolding run_flush
run_flush-Polled g d now n b m =
    let e = latch_start d now in
    let k = latch_start-Mirrors g d now m in
    if-Polled g _ _ _ (errs g _ Err.timeout (omega arith) (omega arith))
      (if-Polled g _ _ _ (waits g e k) (flush_loop-Polled g n e b k))

-- A guard that does not hold.
otherwise :
    (g : Gddram) (b : Bool) (r s : Status × Driver)
    → b ≡ false
    → Polled g s
    → Polled g (if b then r else s)
otherwise g true r s h y = absurd (ground (arith, h))
otherwise g false r s h y = y

poll_flush_internal-Polled :
    (g : Gddram) (d : Driver) (now n b : ℕ)
    → is_flushing d ≡ true
    → Mirrors g d
    → Polled g (poll_flush_internal d now n b)
unfolding poll_flush_internal
poll_flush_internal-Polled g d now n b f m =
    let e = tick_power_on d now in
    let k = tick_power_on-Mirrors g d now m in
    let q : e.flush ≡ d.flush = ap (λ x. x.flush) (ticked d now) in
    if-Polled g _ _ _ (errs g d Err.not_initialized (omega arith) (omega arith)) (
      if-Polled g _ _ _ (errs g d Err.invalid_config (omega arith) (omega arith)) (
        otherwise g (page_iteration_owns_flush_result e) _ _ (ground (arith, q, f)) (
          otherwise g (not (is_flushing e)) _ _ (ground (arith, q, f))
            (if-Polled g _ _ _ (waits g e k) (run_flush-Polled g e now n b k)))))

-- A poll of a flush on a full framebuffer. When it returns success, the display memory, as it was
-- and with all that was sent, holds the framebuffer in every page and column where nothing is due.
-- When it returns `in_progress`, all that is needed for the next poll holds again.
pub poll_flush-Polled :
    (g : Gddram) (d : Driver) (now n b : ℕ)
    → is_flushing d ≡ true
    → Mirrors g d
    → Polled g (poll_flush d now n b)
unfolding poll_flush
poll_flush-Polled g d now n b f m =
    if-Polled g _ _ _ (errs g d Err.busy (omega arith) (omega arith))
      (poll_flush_internal-Polled g d now n b f m)
