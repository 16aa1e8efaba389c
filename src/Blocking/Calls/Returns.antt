-- ===== src/Blocking/Calls/Returns.antt =====
-- startHorizontalScroll and a `begin` that only initializes, of src/SSD1315.cpp: they come back, and
-- leave neither an operation nor a result behind.
use ssd.Common.{ℕ, Bool, true, false, Option, none, some, ◌≤◌, ◌≡◌, refl, arith}
use ssd.Status.{Status}
use ssd.Config.{Config}
use ssd.Driver.{Driver}
use ssd.Blocking.Run.Free.{Gives, Free}
use ssd.Blocking.Run.Delay.{has_ended}
use ssd.Blocking.Calls.{will_resync, begin, start_horizontal_scroll}
use ssd.Blocking.Calls.Ends.{start_horizontal_scroll_ends, begin_ends}
use ssd.Blocking.Calls.Free.{BeganWell, start_horizontal_scroll-GivesFree, begin-GivesBegun}

-- The call comes back, with an outcome that satisfies `P`.
abbrev pub Returns : (Status → Driver → Type 0) → Option (Status × Driver) → Type 0
Returns P o = (st : Status) × (e : Driver) × (o ≡ some (st, e)) × P st e

pub ended-Returns :
    (P : Status → Driver → Type 0) (o : Option (Status × Driver))
    → has_ended o ≡ true
    → Gives P o
    → Returns P o
ended-Returns P none h g = absurd (ground (arith, h))
ended-Returns P (some (st, e)) h g = (st, e, refl, g)

-- A blocking horizontal scroll start on a driver without an operation or a waiting result comes
-- back within seventeen polls, whatever the clock shows and the transport answers, and leaves no
-- operation active and no result waiting in every outcome: refused, done, failed or timed out.
pub start_horizontal_scroll-Free :
    (fuel : ℕ) (d : Driver) (left : Bool) (start_page end_page speed : ℕ)
    → Free d
    → 17 ≤ fuel
    → Returns (λ st e. Free e) (start_horizontal_scroll fuel d left start_page end_page speed)
start_horizontal_scroll-Free fuel d left a b c f h =
    ended-Returns (λ st e. Free e) _ (start_horizontal_scroll_ends fuel d left a b c h)
      (start_horizontal_scroll-GivesFree fuel d left a b c f)

-- `begin` with a configuration that only initializes comes back within seventeen polls, whatever the
-- clock shows and the transport and the allocator answer. It is refused and leaves the driver as it
-- was, or the configuration is usable, the driver was free to be bound, and no operation is active
-- and no result waiting.
pub begin-BeganWell :
    (allocate : ℕ → Option ℕ) (fuel : ℕ) (d : Driver) (c : Config)
    → will_resync c ≡ false
    → 17 ≤ fuel
    → Returns (BeganWell d c) (begin allocate fuel d c)
begin-BeganWell allocate fuel d c w h =
    ended-Returns (BeganWell d c) _ (begin_ends allocate fuel d c w h)
      (begin-GivesBegun allocate fuel d c)
