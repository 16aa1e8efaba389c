-- ===== src/Blocking/Calls/Ends.antt =====
-- startHorizontalScroll and startVerticalScroll of src/SSD1315.cpp, and a `begin` that only
-- initializes, end by themselves.
use ssd.Common.{if◌then◌else◌}
use ssd.Common.{
  ℕ, Bool, true, false, Option, ◌≤◌, ◌≡◌, ◌<◌, ◌⊎◌, inl, inr, refl, arith, Bool-cases, not,
}
use ssd.Status.{Status, Err, error, success, is_ok}
use ssd.Config.{Config}
use ssd.Driver.{Driver, OperationKind, OperationOptions, OperationPhase, is_phase, is_kind}
use ssd.Health.{settle_page_flush}
use ssd.Operation.Start.{
  validate_horizontal_scroll, validate_vertical_scroll, admit, enter, start_operation, set_scroll,
  start_horizontal_scroll_operation, start_vertical_scroll_operation,
}
use ssd.Operation.Start.Admission.{start_operation-Accepted, Accepted-Running}
use ssd.Lifecycle.{attach}
use ssd.Blocking.Run.{next_compatibility_options}
use ssd.Blocking.Run.Delay.{has_ended}
use ssd.Blocking.Run.Steps.{Stepping, need_of}
use ssd.Blocking.Run.Ends.{run_blocking_admitted_operation-has_ended}
use ssd.Blocking.Calls.{
  run_if_ok, run_blocking_operation, will_resync, begin, start_horizontal_scroll,
  start_vertical_scroll,
}

-- The kinds whose commands are all of the operation.
abbrev is_plain : OperationKind → Bool
is_plain OperationKind.initialize = true
is_plain OperationKind.horizontal_scroll = true
is_plain OperationKind.vertical_scroll = true
is_plain _ = false

enter-need :
    (k : OperationKind) (o : OperationOptions) (d : Driver) (prior : ℕ)
    → is_plain k ≡ true
    → let e = (enter (admit d k o) prior k).1 in
      (0 < need_of e)
      × (need_of e ≤ 17)
      × (e.operation.init_step < 17)
      × ((is_phase e.operation.progress.phase OperationPhase.initialize_command ≡ false)
          ⊎ (is_kind e.operation.progress.kind OperationKind.initialize ≡ true))
unfolding enter admit
enter-need OperationKind.initialize o d prior h = ground arith
enter-need OperationKind.horizontal_scroll o d prior h = ground arith
enter-need OperationKind.vertical_scroll o d prior h = ground arith
enter-need OperationKind.none o d prior h = absurd (ground arith)
enter-need OperationKind.flush o d prior h = absurd (ground arith)
enter-need OperationKind.sleep o d prior h = absurd (ground arith)
enter-need OperationKind.wake o d prior h = absurd (ground arith)
enter-need OperationKind.resync o d prior h = absurd (ground arith)
enter-need OperationKind.shutdown o d prior h = absurd (ground arith)

start_operation-Stepping :
    (d : Driver) (k : OperationKind) (o : OperationOptions)
    → is_plain k ≡ true
    → o.use_deadline ≡ false
    → is_ok (start_operation d k o).0 ≡ true
    → let e = (start_operation d k o).1 in Stepping e × (need_of e ≤ 17)
unfolding start_operation
start_operation-Stepping d k o h u ok =
    let a = start_operation-Accepted d k o ok in
    let r = Accepted-Running a in
    let d1 = settle_page_flush d in
    grind (arith, a.options, r, enter-need k o d1 d1.operation.last_request_id h)

run_if_ok-has_ended :
    (fuel : ℕ) (r : Status × Driver)
    → 17 ≤ fuel
    → (is_ok r.0 ≡ true → Stepping r.1 × (need_of r.1 ≤ 17))
    → has_ended (run_if_ok fuel r) ≡ true
run_if_ok-has_ended fuel (st, d) f s = elim (Bool-cases (is_ok st)) [
  | inl ok ↦
      let (q, n) = s ok in rw ok (run_blocking_admitted_operation-has_ended fuel d q (omega arith))
  | inr refused ↦ rw refused refl
]

set_scroll-Stepping :
    (d : Driver) (left : Bool) (a b c v : ℕ)
    → Stepping d
    → let e = set_scroll d left a b c v in Stepping e × (need_of e ≡ need_of d)
unfolding set_scroll
set_scroll-Stepping d left a b c v s = ground arith

set_scroll-Few :
    (d : Driver) (left : Bool) (a b c v : ℕ)
    → Stepping d × (need_of d ≤ 17)
    → let e = set_scroll d left a b c v in Stepping e × (need_of e ≤ 17)
set_scroll-Few d left a b c v q = grind (arith, set_scroll-Stepping d left a b c v q.0)

-- The end of a scroll start, which sets the scroll of an accepted operation.
accepted_lem :
    (r : Status × Driver) (set : Driver → Driver)
    → (is_ok r.0 ≡ true → Stepping r.1 × (need_of r.1 ≤ 17))
    → ((d : Driver) → Stepping d × (need_of d ≤ 17) → Stepping (set d) × (need_of (set d) ≤ 17))
    → let (st, e) = if not (is_ok r.0) then r else (success, set r.1) in
      is_ok st ≡ true → Stepping e × (need_of e ≤ 17)
accepted_lem (st, d) set each keep h = elim (Bool-cases (is_ok st)) [
  | inl ok ↦ rw ok (keep d (each ok))
  | inr refused ↦ absurd (grind (arith, refused, h))
]

not-true : (b : Bool) → not b ≡ true → b ≡ false
not-true b h = ground arith

-- A guard in front of it.
guarded_lem :
    (refused : Bool) (refusal : Status) (d : Driver) (r : Status × Driver)
    → (refused ≡ true → is_ok refusal ≡ false)
    → (is_ok r.0 ≡ true → Stepping r.1 × (need_of r.1 ≤ 17))
    → let (st, e) = if refused then (refusal, d) else r in
      is_ok st ≡ true → Stepping e × (need_of e ≤ 17)
guarded_lem true refusal d r f s h = let k = f refl in absurd (grind (arith, k, h))
guarded_lem false refusal d r f s h = s h

start_horizontal_scroll_operation-Stepping :
    (d : Driver) (o : OperationOptions) (left : Bool) (a b c : ℕ)
    → o.use_deadline ≡ false
    → let (st, e) = start_horizontal_scroll_operation d o left a b c in
      is_ok st ≡ true → Stepping e × (need_of e ≤ 17)
unfolding start_horizontal_scroll_operation
start_horizontal_scroll_operation-Stepping d o left a b c u =
    let t =
      accepted_lem (start_operation d OperationKind.horizontal_scroll o)
        (λ f. set_scroll f left a b c 0)
        (start_operation-Stepping d OperationKind.horizontal_scroll o refl u)
        (λ f q. set_scroll-Few f left a b c 0 q) in
    guarded_lem _ (error Err.busy) d _ (λ x. refl)
      (guarded_lem _ (error Err.not_initialized) d _ (λ x. refl)
        (guarded_lem _ (validate_horizontal_scroll d a b c) d _ (λ x. not-true _ x) t))

start_vertical_scroll_operation-Stepping :
    (d : Driver) (o : OperationOptions) (left : Bool) (a b c v : ℕ)
    → o.use_deadline ≡ false
    → let (st, e) = start_vertical_scroll_operation d o left a b c v in
      is_ok st ≡ true → Stepping e × (need_of e ≤ 17)
unfolding start_vertical_scroll_operation
start_vertical_scroll_operation-Stepping d o left a b c v u =
    let t =
      accepted_lem (start_operation d OperationKind.vertical_scroll o)
        (λ f. set_scroll f left a b c v)
        (start_operation-Stepping d OperationKind.vertical_scroll o refl u)
        (λ f q. set_scroll-Few f left a b c v q) in
    guarded_lem _ (error Err.busy) d _ (λ x. refl)
      (guarded_lem _ (error Err.not_initialized) d _ (λ x. refl)
        (guarded_lem _ (validate_vertical_scroll d a b c v) d _ (λ x. not-true _ x) t))

next_compatibility_options_no_deadline :
    (d : Driver) → (next_compatibility_options d).0.use_deadline ≡ false
unfolding next_compatibility_options
next_compatibility_options_no_deadline d = refl

-- A blocking horizontal scroll start comes back within seventeen polls, whatever driver it is
-- called on, whatever the clock shows and the transport answers.
pub start_horizontal_scroll_ends :
    (fuel : ℕ) (d : Driver) (left : Bool) (start_page end_page speed : ℕ)
    → 17 ≤ fuel
    → has_ended (start_horizontal_scroll fuel d left start_page end_page speed) ≡ true
unfolding start_horizontal_scroll
start_horizontal_scroll_ends fuel d left a b c f =
    let (o, e) = next_compatibility_options d in
    let r = run_if_ok-has_ended fuel (start_horizontal_scroll_operation e o left a b c) f (
      start_horizontal_scroll_operation-Stepping e o left a b c
        (next_compatibility_options_no_deadline d)) in
    ground (arith, r)

-- The same for a blocking vertical scroll start.
pub start_vertical_scroll_ends :
    (fuel : ℕ) (d : Driver) (left : Bool) (start_page end_page speed offset : ℕ)
    → 17 ≤ fuel
    → has_ended (start_vertical_scroll fuel d left start_page end_page speed offset) ≡ true
unfolding start_vertical_scroll
start_vertical_scroll_ends fuel d left a b c v f =
    let (o, e) = next_compatibility_options d in
    let r = run_if_ok-has_ended fuel (start_vertical_scroll_operation e o left a b c v) f (
      start_vertical_scroll_operation-Stepping e o left a b c v
        (next_compatibility_options_no_deadline d)) in
    ground (arith, r)

run_blocking_initialize_ends :
    (fuel : ℕ) (d : Driver)
    → 17 ≤ fuel
    → has_ended (run_blocking_operation fuel d OperationKind.initialize) ≡ true
unfolding run_blocking_operation
run_blocking_initialize_ends fuel d f =
    let (o, e) = next_compatibility_options d in
    let r = run_if_ok-has_ended fuel (start_operation e OperationKind.initialize o) f (
      start_operation-Stepping e OperationKind.initialize o refl
        (next_compatibility_options_no_deadline d)) in
    ground (arith, r)

pub begin_ends :
    (allocate : ℕ → Option ℕ) (fuel : ℕ) (d : Driver) (c : Config)
    → will_resync c ≡ false
    → 17 ≤ fuel
    → has_ended (begin allocate fuel d c) ≡ true
unfolding begin
begin_ends allocate fuel d c w f =
    let r = run_blocking_initialize_ends fuel (attach allocate d c).1 f in ground (arith, r)
