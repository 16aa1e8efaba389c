-- ===== src/Blocking/Calls.antt =====
-- _runBlockingOperation, recover, begin, startHorizontalScroll and startVerticalScroll of
-- src/SSD1315.cpp. The allocator of `begin` is that of `attach`.
pub mod Free
pub mod Ends
pub mod Returns
use ssd.Common.{
  ℕ, Bool, Option, none, some, true, false, ltb, ◌==◌, ◌/◌, not, ◌&&◌, ◌||◌, u8, if◌then◌else◌,
}
use ssd.Status.{Status, Err, error, is_ok}
use ssd.Config.{Config}
use ssd.Driver.{Driver, OperationKind, OperationOptions, is_kind}
use ssd.Frame.Geometry.{is_page_buffer_mode}
use ssd.Transport.{check_direct_i2c_admission}
use ssd.Operation.Start.{
  start_operation, start_horizontal_scroll_operation, start_vertical_scroll_operation,
}
use ssd.Lifecycle.{validate_config, attach}
use ssd.Blocking.Run.{next_compatibility_options, run_blocking_admitted_operation}

abbrev pub has_clock : Config → Bool
has_clock c = elim c.now_ms [ none ↦ false | some f ↦ true ]

-- `st.ok() ? _runBlockingAdmittedOperation() : st`
abbrev run_if_ok : ℕ → Status × Driver → Option (Status × Driver)
run_if_ok fuel (st, d) =
    if not (is_ok st) then some (st, d) else run_blocking_admitted_operation fuel d

unfoldable pub run_blocking_operation : ℕ → Driver → OperationKind → Option (Status × Driver)
run_blocking_operation fuel d k =
    if is_kind k OperationKind.resync && is_page_buffer_mode d
    then some (error Err.unsupported, d)
    else if (is_kind k OperationKind.resync || is_kind k OperationKind.wake)
        && not (d.config.display_on_delay_ms == 0)
        && not (has_clock d.config)
    then some (error Err.invalid_config, d)
    else let (options, e) = next_compatibility_options d in
      run_if_ok fuel (start_operation e k options)

unfoldable pub recover : ℕ → Driver → Option (Status × Driver)
recover fuel d =
    if not d.binding.attached
    then some (error Err.not_initialized, d)
    else run_blocking_operation fuel d OperationKind.resync

-- `willResync`
unfoldable pub will_resync : Config → Bool
will_resync c = c.clear_on_begin && not (ltb c.page_buffer_pages (u8 (c.height / 8)))

unfoldable pub begin : (ℕ → Option ℕ) → ℕ → Driver → Config → Option (Status × Driver)
begin allocate fuel d c =
    let candidate = validate_config d c in
    if not (is_ok candidate)
    then some (candidate, d)
    else if will_resync c && not (c.display_on_delay_ms == 0) && not (has_clock c)
    then some (error Err.invalid_config, d)
    else let (st, e) = attach allocate d c in
      if not (is_ok st)
      then some (st, e)
      else run_blocking_operation fuel e
          (if will_resync c then OperationKind.resync else OperationKind.initialize)

-- The guards that the two scroll starts share.
abbrev scroll_admission : Driver → Status
scroll_admission d =
    let st = check_direct_i2c_admission d in
    if not (is_ok st)
    then st
    else if not d.binding.initialized
    then error Err.not_initialized
    else st

unfoldable pub start_horizontal_scroll : ℕ → Driver → Bool → ℕ → ℕ → ℕ → Option (Status × Driver)
start_horizontal_scroll fuel d left start_page end_page speed =
    let st = scroll_admission d in
    if not (is_ok st)
    then some (st, d)
    else let (options, e) = next_compatibility_options d in
      run_if_ok fuel (start_horizontal_scroll_operation e options left start_page end_page speed)

unfoldable pub start_vertical_scroll : ℕ → Driver → Bool → ℕ → ℕ → ℕ → ℕ → Option (Status × Driver)
start_vertical_scroll fuel d left start_page end_page speed vertical_offset =
    let st = scroll_admission d in
    if not (is_ok st)
    then some (st, d)
    else let (options, e) = next_compatibility_options d in
      run_if_ok fuel
        (start_vertical_scroll_operation e options left start_page end_page speed vertical_offset)
