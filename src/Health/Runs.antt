-- ===== src/Health/Runs.antt =====
-- Runs of outcomes in _updateHealth of src/SSD1315.cpp.
use ssd.Common.{ℕ, zero, suc, true, false, ◌+◌, ◌≤◌, ◌≡◌, leb, min, if◌then◌else◌, arith, refl, ◌∙◌}
use ssd.Status.{Status, DriverState, is_ok, is_in_progress}
use ssd.Driver.{Driver, operation_active}
use ssd.Health.{now_ms, count_outcome, classify, record_outcome, update_health}

-- A driver whose outcomes are counted.
pub record Counts (d : Driver) : Type 0 where
  pub attached : d.binding.attached ≡ true
  pub initialized : d.binding.initialized ≡ true
  pub inactive : operation_active d ≡ false

-- The same outcome `n` times.
unfoldable pub report : ℕ → Driver → Status → Driver
report zero d st = d
report (suc n) d st = update_health (report n d st) st

-- What a failure that is counted makes of the health, and of the driver otherwise.
record After (d e : Driver) : Type 0 where
  pub counts : Counts e
  pub threshold : e.config.offline_threshold ≡ d.config.offline_threshold
  pub failures : e.health.consecutive_failures ≡ min (d.health.consecutive_failures + 1) 255
  pub state : e.health.driver_state ≡ (
      if leb d.config.offline_threshold e.health.consecutive_failures
      then DriverState.offline
      else DriverState.degraded)

update_health-After :
    (d : Driver) (st : Status)
    → Counts d
    → is_ok st ≡ false
    → is_in_progress st ≡ false
    → d.health.consecutive_failures ≤ 255
    → After d (update_health d st)
unfolding update_health record_outcome now_ms count_outcome classify
update_health-After d st c e p h = ground arith

-- Where a run of `n + 1` failures leads, from a driver with no failure on record.
record AfterRun (n : ℕ) (d e : Driver) : Type 0 where
  pub counts : Counts e
  pub threshold : e.config.offline_threshold ≡ d.config.offline_threshold
  pub failures : e.health.consecutive_failures ≡ min n 255

report-AfterRun :
    (n : ℕ) (d : Driver) (st : Status)
    → Counts d
    → is_ok st ≡ false
    → is_in_progress st ≡ false
    → d.health.consecutive_failures ≡ 0
    → AfterRun n d (report n d st)
unfolding report
report-AfterRun zero d st c e p h = record { counts = c; threshold = refl; failures = h }
report-AfterRun (suc n) d st c e p h =
    let r = report-AfterRun n d st c e p h in
    let s = update_health-After (report n d st) st r.counts e p (omega (arith, r.failures)) in
    record {
      counts = s.counts;
      threshold = s.threshold ∙ r.threshold;
      failures = omega (arith, r.failures, s.failures);
    }

-- After `n + 1` failures in a row, from a driver with no failure on record, an initialized and
-- inactive driver counts them, up to 255, and is offline when the count has reached the
-- configured threshold, and degraded before.
pub report-DriverState :
    (n : ℕ) (d : Driver) (st : Status)
    → Counts d
    → is_ok st ≡ false
    → is_in_progress st ≡ false
    → d.health.consecutive_failures ≡ 0
    → let h = (report (suc n) d st).health in
      (h.consecutive_failures ≡ min (suc n) 255)
      × (h.driver_state ≡ (
          if leb d.config.offline_threshold (min (suc n) 255)
          then DriverState.offline
          else DriverState.degraded))
unfolding report
report-DriverState n d st c e p h =
    let r = report-AfterRun n d st c e p h in
    let s = update_health-After (report n d st) st r.counts e p (omega (arith, r.failures)) in
    ground (arith, r.failures, r.threshold, s.failures, s.state)
