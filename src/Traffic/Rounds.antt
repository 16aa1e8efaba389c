-- ===== src/Traffic/Rounds.antt =====
-- One round of pollOperation of src/SSD1315.cpp sends at most the transactions that it uses up.
use ssd.Common.{ℕ, Bool, ◌+◌, ◌-◌, ◌≤◌, arith, length}
use ssd.Driver.{Driver, OperationPhase, OperationState, EffectState}
use ssd.Power.{clear_control_state_dirty}
use ssd.Flush.Poll.{Step, stop, next}
use ssd.Flush.Request.{request_flush_internal}
use ssd.Operation.Finish.{sync_operation_from_flush}
use ssd.Operation.Init.{finish_initialize, poll_initialize_phase}
use ssd.Operation.Phases.{
  after_initialize, initialize_round, poll_flush_phase, flush_round, display_off_round,
  display_on_round, charge_pump_off_round, on_scroll_deactivated, scroll_deactivate_round,
  scroll_setup, scroll_configure_round, scroll_activate_round, idle_round, operation_round,
}
use ssd.Traffic.Quiet.{mark_all_dirty-OnlyDirty}
use ssd.Traffic.Request.{request_flush_internal-Untouched}
use ssd.Traffic.Flush.{poll_flush_internal-Spent}
use ssd.Traffic.Calm.{
  Sends, mark_control_state_dirty-Sends, invalidate_modeled_panel_power-Sends,
  sync_operation_from_flush-Sends, finish_operation-Sends, fail_operation-Sends, send_command-Sends,
  send_command2-Sends, send_command_list-Sends, send_init_step-Sends,
}

-- A round with `left` transactions to use: what it leaves of them, it has not sent.
abbrev pub RoundSends : ℕ → Driver → Step → Type 0
RoundSends left d (stop st e) = length e.bus.sent ≤ length d.bus.sent + left
RoundSends left d (next e left') =
    (left' ≤ left)
    × (length e.bus.sent + left' ≤ length d.bus.sent + left)
    × (e.flush.transaction_count + left' ≤ d.flush.transaction_count + left)

finish_initialize-Sends : (d : Driver) → Sends 0 d (finish_initialize d)
unfolding finish_initialize clear_control_state_dirty
finish_initialize-Sends d = grind (arith, mark_all_dirty-OnlyDirty)

poll_initialize_phase-Sends : (d : Driver) → Sends 1 d (poll_initialize_phase d).1
unfolding poll_initialize_phase
poll_initialize_phase-Sends d = grind (
  arith, send_init_step-Sends, invalidate_modeled_panel_power-Sends, mark_control_state_dirty-Sends,
  fail_operation-Sends, finish_initialize-Sends,
)

after_initialize-RoundSends : (d : Driver) (left : ℕ) → RoundSends left d (after_initialize d left)
unfolding after_initialize
after_initialize-RoundSends d left =
    let (st, e) = request_flush_internal d in
    ground (
      arith,
      finish_operation-Sends d,
      request_flush_internal-Untouched d,
      fail_operation-Sends e st EffectState.partial OperationState.failed Bool.true,
      sync_operation_from_flush-Sends e,
    )

initialize_round-RoundSends : (d : Driver) (left : ℕ) → RoundSends left d (initialize_round d left)
unfolding initialize_round
initialize_round-RoundSends d left =
    let e = (poll_initialize_phase d).1 in
    ground (arith, poll_initialize_phase-Sends d, after_initialize-RoundSends e (left - 1))

display_off_round-RoundSends :
    (d : Driver) (left : ℕ) → RoundSends left d (display_off_round d left)
unfolding display_off_round
display_off_round-RoundSends d left = grind (
  arith, send_command-Sends, invalidate_modeled_panel_power-Sends, mark_control_state_dirty-Sends,
  fail_operation-Sends, finish_operation-Sends,
)

display_on_round-RoundSends : (d : Driver) (left : ℕ) → RoundSends left d (display_on_round d left)
unfolding display_on_round
display_on_round-RoundSends d left = grind (
  arith, send_command-Sends, invalidate_modeled_panel_power-Sends, mark_control_state_dirty-Sends,
  fail_operation-Sends, finish_operation-Sends,
)

charge_pump_off_round-RoundSends :
    (d : Driver) (left : ℕ) → RoundSends left d (charge_pump_off_round d left)
unfolding charge_pump_off_round
charge_pump_off_round-RoundSends d left = grind (
  arith, send_command2-Sends, mark_control_state_dirty-Sends, fail_operation-Sends,
  finish_operation-Sends,
)

on_scroll_deactivated-Sends : (d : Driver) → Sends 0 d (on_scroll_deactivated d)
unfolding on_scroll_deactivated
on_scroll_deactivated-Sends d = grind (arith, mark_all_dirty-OnlyDirty)

scroll_deactivate_round-RoundSends :
    (d : Driver) (left : ℕ) → RoundSends left d (scroll_deactivate_round d left)
unfolding scroll_deactivate_round
scroll_deactivate_round-RoundSends d left = grind (
  arith, send_command-Sends, mark_control_state_dirty-Sends, fail_operation-Sends,
  on_scroll_deactivated-Sends,
)

scroll_setup-Sends : (d : Driver) → Sends 1 d (scroll_setup d).1
unfolding scroll_setup
scroll_setup-Sends d = grind (arith, send_command_list-Sends)

scroll_configure_round-RoundSends :
    (d : Driver) (left : ℕ) → RoundSends left d (scroll_configure_round d left)
unfolding scroll_configure_round
scroll_configure_round-RoundSends d left =
    grind (arith, scroll_setup-Sends, mark_control_state_dirty-Sends, fail_operation-Sends)

scroll_activate_round-RoundSends :
    (d : Driver) (left : ℕ) → RoundSends left d (scroll_activate_round d left)
unfolding scroll_activate_round
scroll_activate_round-RoundSends d left = grind (
  arith, send_command-Sends, mark_control_state_dirty-Sends, fail_operation-Sends,
  finish_operation-Sends,
)

idle_round-RoundSends : (d : Driver) (left : ℕ) → RoundSends left d (idle_round d left)
unfolding idle_round
idle_round-RoundSends d left = grind (arith, fail_operation-Sends, finish_operation-Sends)

poll_flush_phase_lem :
    (d : Driver) (now left budget : ℕ)
    → d.flush.transaction_count + left ≤ 65535
    → let e = (poll_flush_phase d now left budget).1 in
      (length e.bus.sent + d.flush.transaction_count
        ≤ length d.bus.sent + e.flush.transaction_count)
      × (d.flush.transaction_count ≤ e.flush.transaction_count)
      × (e.flush.transaction_count ≤ d.flush.transaction_count + left)
unfolding poll_flush_phase sync_operation_from_flush
poll_flush_phase_lem d now left budget h =
    ground (arith, poll_flush_internal-Spent d now left budget h)

flush_round-RoundSends :
    (d : Driver) (now left budget : ℕ)
    → d.flush.transaction_count + left ≤ 65535
    → RoundSends left d (flush_round d now left budget)
unfolding flush_round
flush_round-RoundSends d now left budget h =
    grind (
      arith,
      poll_flush_phase_lem d now left budget h,
      fail_operation-Sends,
      finish_operation-Sends,
    )

pub operation_round-RoundSends :
    (p : OperationPhase) (d : Driver) (now left budget : ℕ)
    → d.flush.transaction_count + left ≤ 65535
    → RoundSends left d (operation_round p d now left budget)
unfolding operation_round
operation_round-RoundSends OperationPhase.initialize_command d now left budget h =
    initialize_round-RoundSends d left
operation_round-RoundSends OperationPhase.set_col_addr d now left budget h =
    flush_round-RoundSends d now left budget h
operation_round-RoundSends OperationPhase.set_page_addr d now left budget h =
    flush_round-RoundSends d now left budget h
operation_round-RoundSends OperationPhase.send_data d now left budget h =
    flush_round-RoundSends d now left budget h
operation_round-RoundSends OperationPhase.display_off d now left budget h =
    display_off_round-RoundSends d left
operation_round-RoundSends OperationPhase.display_on d now left budget h =
    display_on_round-RoundSends d left
operation_round-RoundSends OperationPhase.charge_pump_off d now left budget h =
    charge_pump_off_round-RoundSends d left
operation_round-RoundSends OperationPhase.scroll_deactivate d now left budget h =
    scroll_deactivate_round-RoundSends d left
operation_round-RoundSends OperationPhase.scroll_configure d now left budget h =
    scroll_configure_round-RoundSends d left
operation_round-RoundSends OperationPhase.scroll_activate d now left budget h =
    scroll_activate_round-RoundSends d left
operation_round-RoundSends OperationPhase.idle d now left budget h = idle_round-RoundSends d left
operation_round-RoundSends _ d now left budget h = omega arith
