-- ===== src/Lifecycle.antt =====
-- Binding a configuration to the driver: byteRangesOverlap, validateConfig, attach and tick of
-- src/SSD1315.cpp. The allocator is a parameter: it gives the address of a block of a size, or
-- none. The caller's own buffer is its first `requiredBufferSize` bytes.
pub mod Attach
pub mod Overlap
use ssd.Common.{
  ℕ, Bool, true, false, Option, none, some, ◌-◌, ◌/◌, ltb, leb, ◌==◌, not, ◌&&◌, ◌||◌, u8,
  if◌then◌else◌, replicate,
}
use ssd.Status.{Status, Err, success, error, is_ok}
use ssd.Config.{Config}
use ssd.Config.Validate.{validate_config as validate_config_internal}
use ssd.Driver.{Driver, Storage, operation_active, is_flushing, reset_runtime_state}
use ssd.Frame.Geometry.{get_buffer_size}
use ssd.Frame.Dirty.{mark_all_dirty}
use ssd.Power.{tick_power_on}
use ssd.Flush.Poll.{poll_flush}
use ssd.Operation.Poll.{poll_operation}

-- Ranges of bytes, each an address, if any, and a size.
unfoldable pub byte_ranges_overlap : Option ℕ → ℕ → Option ℕ → ℕ → Bool
byte_ranges_overlap none first_size second second_size = false
byte_ranges_overlap (some first) first_size none second_size = false
byte_ranges_overlap (some first) first_size (some second) second_size =
    if first_size == 0 || second_size == 0
    then false
    else if leb first second
    then ltb (second - first) first_size
    else ltb (first - second) second_size

abbrev pub address_of : Option Storage → Option ℕ
address_of none = none
address_of (some s) = some s.address

-- The caller's buffer would overlap the driver's own.
unfoldable pub aliases_own_storage : Driver → Config → ℕ → Bool
aliases_own_storage d c required =
    d.binding.owns_buffer
    && byte_ranges_overlap c.external_buffer required (address_of d.binding.buffer)
        (get_buffer_size d)

-- The method of the driver.
unfoldable pub validate_config : Driver → Config → Status
validate_config d c =
    let (st, required) = validate_config_internal c in
    if not (is_ok st)
    then st
    else if aliases_own_storage d c required
    then error Err.invalid_config
    else success

-- The state of a fresh binding to the block at `address`.
unfoldable pub bind : Driver → Config → ℕ → Bool → ℕ → Driver
bind d c address owns required =
    let e = reset_runtime_state d in
    mark_all_dirty (record e {
      config = record c {
        offline_threshold = if c.offline_threshold == 0 then 1 else c.offline_threshold;
      };
      binding = record (e.binding) {
        attached = true;
        buffer = some (record { address = address; bytes = replicate required 0 });
        owns_buffer = owns;
        total_pages = u8 (c.height / 8);
        transport_timeout_ms = c.i2c_timeout_ms;
      };
    })

unfoldable pub attach : (ℕ → Option ℕ) → Driver → Config → Status × Driver
attach allocate d c =
    if operation_active d || d.operation.result_ready || is_flushing d
    then (error Err.busy, d)
    else let (st, required) = validate_config_internal c in
      if not (is_ok st)
      then (st, d)
      else if aliases_own_storage d c required
      then (error Err.invalid_config, d)
      else elim c.external_buffer [
        | some address ↦ (success, bind d c address false required)
        | none ↦ elim (allocate required) [
          | none ↦ (error Err.internal_error, d)
          | some address ↦ (success, bind d c address true required)
        ]
      ]

unfoldable pub tick : Driver → ℕ → Driver
tick d now =
    if not d.binding.attached
    then d
    else let e = tick_power_on d now in
      if operation_active e
      then (poll_operation e now 1 e.config.byte_budget_per_tick).1
      else if e.operation.result_ready
      then e
      else if e.binding.initialized && is_flushing e
      then (poll_flush e now 1 e.config.byte_budget_per_tick).1
      else e
