-- ===== src/Operation/Phases/DisplayOn.antt =====
-- The DISPLAY_ON phase of pollOperation and the guard of startWake in src/SSD1315.cpp: the panel is
-- lit only over known content.
use ssd.Common.{ℕ, true, false, not, ◌||◌, ◌≡◌, ◌≤◌, arith, length}
use ssd.Status.{Status, Err, PanelPowerState, error, is_ok}
use ssd.Driver.{Driver, OperationState, OperationOptions, OperationKind}
use ssd.Frame.Dirty.{is_dirty}
use ssd.Flush.Poll.{Step, stop, next}
use ssd.Operation.Phases.{display_on_round}
use ssd.Operation.Start.{admission, panel_admission, start_operation, start_wake}
use ssd.Operation.Turns.Keeps.{Ended, fail_operation-Ended}
use ssd.Traffic.Calm.{fail_operation-Sends}

-- A round that ends the poll with a failed operation, with nothing sent.
abbrev pub Refused : Status → Driver → Step → Type 0
Refused why d (stop st e) =
    (st ≡ why)
    × (length e.bus.sent ≤ length d.bus.sent)
    × Ended e
    × (e.operation.progress.state ≡ OperationState.failed)
    × (e.operation.progress.status ≡ why)
Refused why d (next e left) = ⊥

-- With dirty pages, or with GDDRAM not known to hold the whole framebuffer, the DISPLAY_ON phase
-- sends nothing and ends the operation as failed with a state error, whatever its budget.
pub display_on_round-Refused :
    (d : Driver) (left : ℕ)
    → (is_dirty d || not d.dirty.gddram_synchronized) ≡ true
    → Refused (error Err.state_error) d (display_on_round d left)
unfolding display_on_round
display_on_round-Refused d left h = grind (arith, fail_operation-Ended, fail_operation-Sends)

-- What a wake asks of the driver.
pub record WakeReady (d : Driver) : Type 0 where
  pub attached : d.binding.attached ≡ true
  pub initialized : d.binding.initialized ≡ true
  pub controls : d.panel.control_state_dirty ≡ false
  pub power : d.panel.panel_power_state ≡ PanelPowerState.off
  pub clean : is_dirty d ≡ false
  pub known : d.dirty.gddram_synchronized ≡ true

admission-WakeReady :
    (d : Driver) (o : OperationOptions)
    → is_ok (admission d OperationKind.wake o) ≡ true
    → WakeReady d
unfolding admission panel_admission
admission-WakeReady d o h = ground arith

-- A wake is accepted only on an initialized panel that is off, with certain controls, no dirty
-- page, and GDDRAM known to hold the whole framebuffer.
pub start_wake-WakeReady :
    (d : Driver) (o : OperationOptions) → is_ok (start_wake d o).0 ≡ true → WakeReady d
unfolding start_operation
start_wake-WakeReady d o h = grind (arith, admission-WakeReady d o)
