-- ===== src/Operation/Result/Invalidate.antt =====
-- invalidatePanelState of src/SSD1315.cpp.
use ssd.Common.{Bool, true, false, ◌≡◌, ◌⊎◌, arith, refl, ap, ◌∙◌, if◌then◌else◌}
use ssd.Status.{Status, Err, PanelPowerState, error}
use ssd.Driver.{
  Driver, Panel, EffectState, FlushState, OperationState, operation_active, is_flushing,
}
use ssd.Health.{update_health, settle_page_flush, page_iteration_flush_result}
use ssd.Power.{invalidate_modeled_panel_power}
use ssd.Operation.Finish.{
  abandon_flush, is_cancelled, fail_operation, interrupt_controls, terminate_operation,
}
use ssd.Operation.Result.{cancel_operation, drop_flush, invalidate_panel_state}
use ssd.Operation.Turns.Polls.{cancel_operation-Ended}
use ssd.Traffic.Quiet.{settle_page_flush-Still, update_health-Bookkept, mark_all_dirty-OnlyDirty}

-- The panel and the bus are as they were.
abbrev Apart : Driver → Driver → Type 0
Apart d e = (e.panel ≡ d.panel) × (e.bus.sent ≡ d.bus.sent)

abandon_flush-Apart : (d : Driver) (st : Status) → Apart d (abandon_flush d st)
unfolding abandon_flush
abandon_flush-Apart d st = ground (arith, mark_all_dirty-OnlyDirty d)

update_health-Apart : (d : Driver) (st : Status) → Apart d (update_health d st)
update_health-Apart d st = ground (arith, update_health-Bookkept d st)

fail_operation_panel :
    (d : Driver) (st : Status) (effect : EffectState) (publish : Bool)
    → Apart d (fail_operation d st effect OperationState.cancelled publish)
unfolding fail_operation is_cancelled
fail_operation_panel d st effect publish = ground (arith, abandon_flush-Apart d st)

interrupt_controls_unknown :
    (d : Driver) (st : Status)
    → d.panel.panel_power_state ≡ PanelPowerState.unknown
    → let e = interrupt_controls d st in
      (e.panel.panel_power_state ≡ PanelPowerState.unknown) × (e.bus.sent ≡ d.bus.sent)
unfolding interrupt_controls invalidate_modeled_panel_power
interrupt_controls_unknown d st h = ground arith

cancel_operation_unknown :
    (d : Driver)
    → d.panel.panel_power_state ≡ PanelPowerState.unknown
    → let e = (cancel_operation d).1 in
      (e.panel.panel_power_state ≡ PanelPowerState.unknown) × (e.bus.sent ≡ d.bus.sent)
unfolding cancel_operation terminate_operation
cancel_operation_unknown d h =
    grind (arith, interrupt_controls_unknown d (error Err.cancelled) h, fail_operation_panel)

settle_page_flush_panel :
    (d : Driver)
    → let e = settle_page_flush d in
      (e.panel ≡ d.panel)
      × (e.flush.state ≡ d.flush.state)
      × (e.flush.error ≡ d.flush.error)
      × (e.bus.sent ≡ d.bus.sent)
unfolding settle_page_flush
settle_page_flush_panel d = ground (arith, update_health-Bookkept d (page_iteration_flush_result d))

-- Nothing is left of the operation or the flush that was under way, but its outcome.
abbrev pub Stopped : Driver → Driver → Type 0
Stopped d e =
    (operation_active d ≡ true)
      × (e.operation.result_ready ≡ true)
      × (e.operation.progress.state ≡ OperationState.cancelled)
      × (e.operation.progress.status ≡ error Err.cancelled)
    ⊎ (operation_active d ≡ false)
      × (e.operation ≡ d.operation)
      × (is_flushing e ≡ false)
      × ((is_flushing d ≡ false)
          ⊎ (e.flush.state ≡ FlushState.error) × (e.flush.error ≡ error Err.cancelled))

-- The first half: the operation or the flush is given up.
give_up : Driver → Driver
give_up d =
    if operation_active d then (cancel_operation d).1 else if is_flushing d then drop_flush d else d

give_up-Stopped :
    (d : Driver)
    → d.panel.panel_power_state ≡ PanelPowerState.unknown
    → let e = give_up d in
      (operation_active e ≡ false)
      × (e.panel.panel_power_state ≡ PanelPowerState.unknown)
      × (e.bus.sent ≡ d.bus.sent)
      × Stopped d e
unfolding give_up drop_flush
give_up-Stopped d h = ground (arith, cancel_operation-Ended d, cancel_operation_unknown d h)

settle-Stopped :
    (d e : Driver)
    → operation_active e ≡ false
    → Stopped d e
    → let f = settle_page_flush e in (operation_active f ≡ false) × Stopped d f
settle-Stopped d e i s = ground (arith, settle_page_flush-Still e, settle_page_flush_panel e)

-- After the panel state is invalidated the power, the controls and GDDRAM count as unknown, page
-- iteration is over, and nothing was sent. An operation that was active has ended as cancelled, with
-- its result waiting; without one the operation is as it was and no flush runs, and a flush that ran
-- has failed as cancelled.
pub invalidate_panel_state_lem :
    (d : Driver)
    → let e = invalidate_panel_state d in
      (operation_active e ≡ false)
      × (e.panel.panel_power_state ≡ PanelPowerState.unknown)
      × (e.panel.control_state_dirty ≡ true)
      × (e.panel.control_state_error ≡ error Err.control_state_unknown)
      × (e.dirty.gddram_synchronized ≡ false)
      × (e.paging.in_page_iteration ≡ false)
      × (e.bus.sent ≡ d.bus.sent)
      × Stopped d e
unfolding invalidate_panel_state invalidate_modeled_panel_power give_up
invalidate_panel_state_lem d =
    let p = invalidate_modeled_panel_power d in
    let (i, u, b, s) = give_up-Stopped p refl in
    let (j, t) = settle-Stopped p (give_up p) i s in
    let q = settle_page_flush_panel (give_up p) in
    (j, ap (λ (v : Panel). v.panel_power_state) q.0 ∙ u, refl, refl, refl, refl, q.3 ∙ b, t)
