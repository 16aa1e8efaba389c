-- ===== src/Blocking/Run/Steps.antt =====
-- _runBlockingAdmittedOperation of src/SSD1315.cpp on operations whose phases are single commands:
-- they end by themselves, whatever the clock shows and the transport answers.
use ssd.Common.{ℕ, zero, suc, true, false, ◌-◌, ◌≤◌, ◌<◌, ◌≡◌, ◌⊎◌, ap, inl, inr, refl, arith}
use ssd.Status.{Status, is_ok, is_in_progress}
use ssd.Driver.{Driver, OperationKind, OperationPhase, is_phase, is_kind}
use ssd.Power.{clear_control_state_dirty}
use ssd.Traffic.Quiet.{mark_all_dirty-OnlyDirty}
use ssd.Flush.Poll.{Step, stop, next, then_run}
use ssd.Operation.Init.{finish_initialize, poll_initialize_phase}
use ssd.Operation.Phases.{
  after_initialize, initialize_round, scroll_deactivate_round, scroll_configure_round,
  scroll_activate_round, operation_round,
}
use ssd.Operation.Poll.{operation_loop}
use ssd.Operation.Turns.Keeps.{
  Running, Ended, send_command-Keeps, send_init_step-Keeps, send_init_step_definite,
  scroll_setup-Keeps, on_scroll_deactivated-Keeps, finish_operation-Ended, fail_operation-Ended,
}

-- The commands that such a phase and those behind it still send.
abbrev pub need : OperationPhase → ℕ → ℕ
need OperationPhase.initialize_command step = 17 - step
need OperationPhase.scroll_deactivate step = 3
need OperationPhase.scroll_configure step = 2
need OperationPhase.scroll_activate step = 1
need _ step = 0

abbrev pub need_of : Driver → ℕ
need_of d = need d.operation.progress.phase d.operation.init_step

-- An operation, without a deadline, in such a phase. RESYNC is left out: a flush follows its
-- commands.
pub record Stepping (d : Driver) : Type 0 where
  pub running : Running d
  pub no_deadline : d.operation.options.use_deadline ≡ false
  pub some_need : 0 < need_of d
  pub early : d.operation.init_step < 17
  pub no_resync :
      (is_phase d.operation.progress.phase OperationPhase.initialize_command ≡ false)
      ⊎ (is_kind d.operation.progress.kind OperationKind.initialize ≡ true)

-- The operation has ended, or is closer to its end.
abbrev pub Nearer : ℕ → Driver → Type 0
Nearer n e = Ended e ⊎ Stepping e × (need_of e < n)

abbrev RoundNearer : ℕ → Step → Type 0
RoundNearer n (stop st e) = Nearer n e
RoundNearer n (next e left) = Stepping e × (need_of e < n) × (0 < left)

finish_initialize_counts :
    (d : Driver)
    → let e = finish_initialize d in
      (e.operation.progress.kind ≡ d.operation.progress.kind)
      × (e.operation.init_step ≡ d.operation.init_step)
unfolding finish_initialize clear_control_state_dirty
finish_initialize_counts d = grind (arith, mark_all_dirty-OnlyDirty)

poll_initialize_phase-Nearer :
    (d : Driver)
    → Stepping d
    → is_phase d.operation.progress.phase OperationPhase.initialize_command ≡ true
    → let (st, e) = poll_initialize_phase d in
      Ended e × (is_ok st ≡ false) × (is_in_progress st ≡ false)
      ⊎ Stepping e × (need_of e < need_of d) × (e.operation.init_step < 17)
      ⊎ (is_ok st ≡ true)
        × (17 ≤ e.operation.init_step)
        × (is_kind e.operation.progress.kind OperationKind.initialize ≡ true)
unfolding poll_initialize_phase
poll_initialize_phase-Nearer d s h = grind (
  arith, send_init_step-Keeps, send_init_step_definite, fail_operation-Ended,
  finish_initialize_counts,
)

scroll_activate_round-Nearer :
    (d : Driver) (left n : ℕ) → 0 < left → RoundNearer n (scroll_activate_round d left)
unfolding scroll_activate_round
scroll_activate_round-Nearer d left n h =
    grind (arith, fail_operation-Ended, finish_operation-Ended)

scroll_configure_round-Nearer :
    (d : Driver) (left : ℕ) → Stepping d → 0 < left → RoundNearer 2 (scroll_configure_round d left)
unfolding scroll_configure_round
scroll_configure_round-Nearer d left s h = grind (arith, scroll_setup-Keeps, fail_operation-Ended)

scroll_deactivate_round-Nearer :
    (d : Driver) (left : ℕ) → Stepping d → 0 < left → RoundNearer 3 (scroll_deactivate_round d left)
unfolding scroll_deactivate_round
scroll_deactivate_round-Nearer d left s h =
    grind (arith, send_command-Keeps, on_scroll_deactivated-Keeps, fail_operation-Ended)

after_initialize-Ended :
    (d : Driver) (left n : ℕ)
    → is_kind d.operation.progress.kind OperationKind.initialize ≡ true
    → RoundNearer n (after_initialize d left)
unfolding after_initialize
after_initialize-Ended d left n h = grind (arith, finish_operation-Ended)

initialize_round-Nearer :
    (d : Driver) (left n : ℕ)
    → Stepping d
    → is_phase d.operation.progress.phase OperationPhase.initialize_command ≡ true
    → need_of d ≡ n
    → 0 < left
    → RoundNearer n (initialize_round d left)
unfolding initialize_round
initialize_round-Nearer d left n s p eq h =
    let (st, e) = poll_initialize_phase d in
    let k = poll_initialize_phase-Nearer d s p in
    let l = after_initialize-Ended e (left - 1) n in
    elim k [
      | inl failed ↦ ground arith
      | inr (inl stepping) ↦ ground arith
      | inr (inr done) ↦ ground (arith, l)
    ]

operation_round-Nearer :
    (p : OperationPhase) (d : Driver) (now left budget : ℕ)
    → Stepping d
    → d.operation.progress.phase ≡ p
    → 0 < left
    → RoundNearer (need p d.operation.init_step) (operation_round p d now left budget)
unfolding operation_round
operation_round-Nearer OperationPhase.initialize_command d now left budget s eq h =
    initialize_round-Nearer d left (17 - d.operation.init_step) s
      (ap (λ q. is_phase q OperationPhase.initialize_command) eq)
      (ap (λ q. need q d.operation.init_step) eq) h
operation_round-Nearer OperationPhase.scroll_deactivate d now left budget s eq h =
    scroll_deactivate_round-Nearer d left s h
operation_round-Nearer OperationPhase.scroll_configure d now left budget s eq h =
    scroll_configure_round-Nearer d left s h
operation_round-Nearer OperationPhase.scroll_activate d now left budget s eq h =
    scroll_activate_round-Nearer d left 1 h
operation_round-Nearer _ d now left budget s eq h = let k = s.some_need in absurd (ground arith)

then_run-Nearer :
    (n : ℕ) (r : Step) (rest : Driver → ℕ → Status × Driver)
    → RoundNearer n r
    → ((e : Driver) (left : ℕ) → Stepping e → need_of e < n → 0 < left → Nearer n (rest e left).1)
    → Nearer n (then_run r rest).1
then_run-Nearer n (stop st e) rest o more = o
then_run-Nearer n (next e left) rest (s, lt, h) more = more e left s lt h

rounds-Nearer :
    (k n : ℕ) (d : Driver) (now left budget : ℕ)
    → Stepping d
    → need_of d < n
    → 0 < left
    → Nearer n (operation_loop k d now left budget).1
unfolding operation_loop
rounds-Nearer zero n d now left budget s lt h = inr (s, lt)
rounds-Nearer (suc k) n d now left budget s lt h =
    let o = operation_round-Nearer d.operation.progress.phase d now left budget s refl h in
    let t =
      then_run-Nearer (need_of d) (operation_round d.operation.progress.phase d now left budget)
        (λ e left'. operation_loop k e now left' budget) o
        (λ e left' q m g. rounds-Nearer k (need_of d) e now left' budget q m g) in
    ground (arith, t)

-- The loop of a poll with a round and a transaction.
pub operation_loop-Nearer :
    (k : ℕ) (d : Driver) (now left budget : ℕ)
    → Stepping d
    → 0 < k
    → 0 < left
    → Nearer (need_of d) (operation_loop k d now left budget).1
unfolding operation_loop
operation_loop-Nearer zero d now left budget s pos h = absurd (omega arith)
operation_loop-Nearer (suc k) d now left budget s pos h =
    let o = operation_round-Nearer d.operation.progress.phase d now left budget s refl h in
    let t =
      then_run-Nearer (need_of d) (operation_round d.operation.progress.phase d now left budget)
        (λ e left'. operation_loop k e now left' budget) o
        (λ e left' q m g. rounds-Nearer k (need_of d) e now left' budget q m g) in
    ground (arith, t)
