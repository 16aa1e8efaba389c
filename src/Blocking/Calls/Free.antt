-- ===== src/Blocking/Calls/Free.antt =====
-- The blocking calls of src/SSD1315.cpp leave neither an operation nor a result behind, whatever
-- the callbacks do.
use ssd.Common.{ℕ, Bool, true, false, Option, ◌≡◌, ◌⊎◌, inl, inr, arith, Bool-cases}
use ssd.Status.{Status, is_ok}
use ssd.Config.{Config}
use ssd.Driver.{Driver, OperationKind, OperationOptions}
use ssd.Operation.Start.{admit, withdraw, enter, start_operation}
use ssd.Operation.Start.Admission.{start_operation-Accepted, Accepted-Running}
use ssd.Traffic.Request.{request_flush_internal-Untouched}
use ssd.Blocking.Run.{next_compatibility_options}
use ssd.Blocking.Run.Free.{Gives, Gives-mono, Free, run_blocking_admitted_operation-Free}
use ssd.Blocking.Calls.{run_if_ok, run_blocking_operation, recover, will_resync, begin}
use ssd.Lifecycle.{bind, attach}
use ssd.Driver.{reset_runtime_state}
use ssd.Common.{if◌then◌else◌}
use ssd.Operation.Turns.Keeps.{Running}
use ssd.Operation.Start.{set_scroll, start_horizontal_scroll_operation}
use ssd.Blocking.Calls.{start_horizontal_scroll}
use ssd.Config.Validate.Laws.{IsUsable}
use ssd.Lifecycle.Attach.{Unbound, attach_lem}
use ssd.Traffic.Quiet.{mark_all_dirty-OnlyDirty}

abbrev pub GivesFree : Option (Status × Driver) → Type 0
GivesFree r = Gives (λ st e. Free e) r

enter-Free :
    (k : OperationKind) (o : OperationOptions) (d : Driver) (prior : ℕ)
    → is_ok (enter (admit d k o) prior k).0 ≡ false
    → Free (enter (admit d k o) prior k).1
unfolding enter admit withdraw
enter-Free k o d prior h = grind (arith, request_flush_internal-Untouched)

start_operation-Free :
    (d : Driver) (k : OperationKind) (o : OperationOptions)
    → Free d
    → is_ok (start_operation d k o).0 ≡ false
    → Free (start_operation d k o).1
unfolding start_operation
start_operation-Free d k o f h = grind (arith, enter-Free)

-- What `start_operation` comes to on a free driver.
abbrev pub Opened : Status × Driver → Type 0
Opened (st, e) = (is_ok st ≡ true) × Running e ⊎ (is_ok st ≡ false) × Free e

pub start_operation-Opened :
    (d : Driver) (k : OperationKind) (o : OperationOptions)
    → Free d
    → Opened (start_operation d k o)
start_operation-Opened d k o f = elim (Bool-cases (is_ok (start_operation d k o).0)) [
  | inl ok ↦ inl (ok, Accepted-Running (start_operation-Accepted d k o ok))
  | inr refused ↦ inr (refused, start_operation-Free d k o f refused)
]

run_if_ok-Opened :
    (fuel : ℕ) (st : Status) (d : Driver) → Opened (st, d) → GivesFree (run_if_ok fuel (st, d))
run_if_ok-Opened fuel st d (inl (ok, r)) = rw ok (run_blocking_admitted_operation-Free fuel d r)
run_if_ok-Opened fuel st d (inr (refused, f)) = rw refused f

run_if_ok-Free :
    (fuel : ℕ) (d : Driver) (k : OperationKind) (o : OperationOptions)
    → Free d
    → GivesFree (run_if_ok fuel (start_operation d k o))
run_if_ok-Free fuel d k o f = elim (Bool-cases (is_ok (start_operation d k o).0)) [
  | inl ok ↦ rw ok (
      run_blocking_admitted_operation-Free fuel (start_operation d k o).1
        (Accepted-Running (start_operation-Accepted d k o ok)))
  | inr refused ↦ rw refused (start_operation-Free d k o f refused)
]

next_compatibility_options-Free : (d : Driver) → Free d → Free (next_compatibility_options d).1
unfolding next_compatibility_options
next_compatibility_options-Free d f = record { inactive = f.inactive; read = f.read }

-- A blocking operation on a free driver leaves it free, in every outcome: refused, done, failed or
-- timed out.
pub run_blocking_operation-Free :
    (fuel : ℕ) (d : Driver) (k : OperationKind)
    → Free d
    → GivesFree (run_blocking_operation fuel d k)
unfolding run_blocking_operation
run_blocking_operation-Free fuel d k f =
    let (o, e) = next_compatibility_options d in
    let r = run_if_ok-Free fuel e k o (next_compatibility_options-Free d f) in ground (arith, r)

pub recover-Free : (fuel : ℕ) (d : Driver) → Free d → GivesFree (recover fuel d)
unfolding recover
recover-Free fuel d f = ground (arith, run_blocking_operation-Free fuel d OperationKind.resync f)

-- A configuration that is bound leaves no operation behind.
attach-Free :
    (allocate : ℕ → Option ℕ) (d : Driver) (c : Config)
    → is_ok (attach allocate d c).0 ≡ true
    → Free (attach allocate d c).1
unfolding attach bind reset_runtime_state
attach-Free allocate d c h = grind (arith, mark_all_dirty-OnlyDirty)

set_scroll-Running :
    (d : Driver) (left : Bool) (a b c v : ℕ) → Running d → Running (set_scroll d left a b c v)
unfolding set_scroll
set_scroll-Running d left a b c v r = ground (arith, r)

start_horizontal_scroll_operation-Opened :
    (d : Driver) (o : OperationOptions) (left : Bool) (a b c : ℕ)
    → Free d
    → Opened (start_horizontal_scroll_operation d o left a b c)
unfolding start_horizontal_scroll_operation
start_horizontal_scroll_operation-Opened d o left a b c f =
    let k = start_operation-Opened d OperationKind.horizontal_scroll o f in
    let e = (start_operation d OperationKind.horizontal_scroll o).1 in
    grind (arith, set_scroll-Running e left a b c 0)

pub start_horizontal_scroll-GivesFree :
    (fuel : ℕ) (d : Driver) (left : Bool) (start_page end_page speed : ℕ)
    → Free d
    → GivesFree (start_horizontal_scroll fuel d left start_page end_page speed)
unfolding start_horizontal_scroll
start_horizontal_scroll-GivesFree fuel d left a b c f =
    let (o, e) = next_compatibility_options d in
    let (st, s) = start_horizontal_scroll_operation e o left a b c in
    let r = run_if_ok-Opened fuel st s (
      start_horizontal_scroll_operation-Opened e o left a b c
        (next_compatibility_options-Free d f)) in
    ground (arith, r)

-- What a `begin` that was not refused outright comes to.
pub record Begun (d : Driver) (c : Config) (e : Driver) : Type 0 where
  pub usable : IsUsable c
  pub unbound : Unbound d c
  pub free : Free e

-- Refused, and as it was, or begun.
abbrev pub BeganWell : Driver → Config → Status → Driver → Type 0
BeganWell d c st e = (is_ok st ≡ false) × (e ≡ d) ⊎ Begun d c e

pub begin-GivesBegun :
    (allocate : ℕ → Option ℕ) (fuel : ℕ) (d : Driver) (c : Config)
    → Gives (BeganWell d c) (begin allocate fuel d c)
unfolding begin
begin-GivesBegun allocate fuel d c = elim (attach_lem allocate d c) [
  | inl (refused, same) ↦ ground (arith, refused, same)
  | inr (ok, usable, bound, unbound) ↦
      let k = if will_resync c then OperationKind.resync else OperationKind.initialize in
      let e = (attach allocate d c).1 in
      let r =
        Gives-mono (λ st f. Free f) (BeganWell d c) (run_blocking_operation fuel e k)
          (λ st f g. inr (record { usable = usable; unbound = unbound; free = g }))
          (run_blocking_operation-Free fuel e k (attach-Free allocate d c ok)) in
      ground (arith, r, ok)
]
