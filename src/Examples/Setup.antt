-- ===== src/Examples/Setup.antt =====
-- The theorems on binding, health and arithmetic, at concrete values.
use ssd.Common.{ℕ, suc, true, some, Option, ◌≡◌, ◌↔◌, min, leb, refl, if◌then◌else◌}
use ssd.Status.{DriverState, Err, error, is_ok}
use ssd.Config.Validate.{validate_config}
use ssd.Config.Validate.Laws.{IsUsable, validate_config_iff}
use ssd.Health.Runs.{Counts, report, report-DriverState}
use ssd.Lifecycle.Attach.{Attached, attach_lem}
use ssd.Examples.{small_config, lit}

abbrev first_fit : ℕ → Option ℕ
first_fit size = some 4096

attach_example : Attached first_fit lit small_config
attach_example = attach_lem first_fit lit small_config

validate_config_iff_example :
    (is_ok (validate_config small_config).0 ≡ true) ↔ IsUsable small_config
validate_config_iff_example = validate_config_iff small_config

lit-Counts : Counts lit
lit-Counts = record { attached = refl; initialized = refl; inactive = refl }

report-DriverState_example :
    let h = (report (suc 2) lit (error Err.i2c_timeout)).health in
    (h.consecutive_failures ≡ min (suc 2) 255)
    × (h.driver_state ≡ (
        if leb lit.config.offline_threshold (min (suc 2) 255)
        then DriverState.offline
        else DriverState.degraded))
report-DriverState_example =
    report-DriverState 2 lit (error Err.i2c_timeout) lit-Counts refl refl refl
