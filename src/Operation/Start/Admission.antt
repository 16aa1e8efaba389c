-- ===== src/Operation/Start/Admission.antt =====
-- _startOperation and cancelOperation of src/SSD1315.cpp: what a refusal leaves alone and what an
-- acceptance establishes.
use ssd.Common.{ℕ, true, false, ◌≡◌, arith, Bool-cases, inl, inr}
use ssd.Status.{Err, error, is_ok}
use ssd.Driver.{Driver, OperationKind, OperationPhase, OperationOptions, is_phase, operation_active}
use ssd.Health.{settle_page_flush}
use ssd.Operation.Start.{admission, admit, withdraw, enter, start_operation}
use ssd.Operation.Finish.{sync_operation_from_flush}
use ssd.Operation.Turns.Rounds.{flush_phase_lem}
use ssd.Operation.Turns.Keeps.{Running}
use ssd.Traffic.Request.{request_flush_internal-Untouched, settle_page_flush-Untouched}

-- What an accepted request has: one active operation, its own, after no other was active or had a
-- result waiting.
pub record Accepted (k : OperationKind) (o : OperationOptions) (d e : Driver) : Type 0 where
  pub was_free : operation_active d ≡ false
  pub was_read : d.operation.result_ready ≡ false
  pub active : operation_active e ≡ true
  pub request_id : e.operation.progress.request_id ≡ o.request_id
  pub kind : e.operation.progress.kind ≡ k
  pub options : e.operation.options ≡ o
  pub last_request_id : e.operation.last_request_id ≡ o.request_id
  pub unread : e.operation.result_ready ≡ false
  pub transactions : e.operation.progress.transaction_count ≡ 0
  pub sent : e.bus.sent ≡ d.bus.sent
  pub waiting : e.operation.progress.status ≡ error Err.in_progress
  pub unfinished : is_phase e.operation.progress.phase OperationPhase.complete ≡ false

enter-Accepted :
    (k : OperationKind) (o : OperationOptions) (d : Driver) (prior : ℕ)
    → is_ok (enter (admit d k o) prior k).0 ≡ true
    → operation_active d ≡ false
    → d.operation.result_ready ≡ false
    → Accepted k o d (enter (admit d k o) prior k).1
unfolding enter admit sync_operation_from_flush withdraw
enter-Accepted OperationKind.none o d prior h a r = ground arith
enter-Accepted OperationKind.initialize o d prior h a r = ground arith
enter-Accepted OperationKind.resync o d prior h a r = ground arith
enter-Accepted OperationKind.sleep o d prior h a r = ground arith
enter-Accepted OperationKind.shutdown o d prior h a r = ground arith
enter-Accepted OperationKind.wake o d prior h a r = ground arith
enter-Accepted OperationKind.horizontal_scroll o d prior h a r = ground arith
enter-Accepted OperationKind.vertical_scroll o d prior h a r = ground arith
enter-Accepted OperationKind.flush o d prior h a r =
    grind (arith, request_flush_internal-Untouched, flush_phase_lem)

-- What the guards let through.
admission-free :
    (d : Driver) (k : OperationKind) (o : OperationOptions)
    → is_ok (admission d k o) ≡ true
    → (operation_active d ≡ false) × (d.operation.result_ready ≡ false)
unfolding admission
admission-free d k o h = ground arith

-- A request that is accepted finds no operation active and no result waiting, and leaves exactly
-- that request active, with no transaction and nothing sent.
pub start_operation-Accepted :
    (d : Driver) (k : OperationKind) (o : OperationOptions)
    → is_ok (start_operation d k o).0 ≡ true
    → Accepted k o d (start_operation d k o).1
unfolding start_operation
start_operation-Accepted d k o h = elim (Bool-cases (is_ok (admission d k o))) [
  | inl ok ↦
      let d1 = settle_page_flush d in
      ground (
        arith,
        admission-free d k o ok,
        settle_page_flush-Untouched d,
        enter-Accepted k o d1 d1.operation.last_request_id,
      )
  | inr refused ↦ ground arith
]

pub Accepted-Running :
    {k : OperationKind} {o : OperationOptions} {d e : Driver} → Accepted k o d e → Running e
Accepted-Running a = record {
  active = a.active;
  unread = a.unread;
  waiting = a.waiting;
  unfinished = a.unfinished;
}
