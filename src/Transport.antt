-- ===== src/Transport.antt =====
-- The write callback and the command frames: _i2cWriteRaw, _checkDirectI2cAdmission,
-- _i2cWriteTracked and _sendCommand* of src/SSD1315.cpp. The frames that the driver builds are
-- never null.
use ssd.Common.{ℕ, none, some, List, [], ◌∷◌, ◌+◌, ltb, ◌==◌, not, ◌||◌, if◌then◌else◌, length}
use ssd.Status.{Status, Err, success, error, map_transport_result}
use ssd.Config.{I2cWriteFn}
use ssd.Command.{ctrl_command}
use ssd.Driver.{Driver, operation_active, is_flushing}
use ssd.Health.{update_health, settle_page_flush}

-- One physical transaction: the frame is handed to the callback, with the driver's timeout.
unfoldable pub transact : Driver → I2cWriteFn → List ℕ → Status × Driver
transact d write bytes = (
  map_transport_result
      (write d.config.i2c_address bytes d.binding.transport_timeout_ms d.bus.calls),
  record d {
    bus = record (d.bus) {
      sent =
          record {
            address = d.config.i2c_address;
            bytes = bytes;
            timeout_ms = d.binding.transport_timeout_ms;
          }
          ∷ d.bus.sent;
      calls = d.bus.calls + 1;
    };
  },
)

unfoldable pub i2c_write_raw : Driver → List ℕ → Status × Driver
i2c_write_raw d bytes = elim d.config.i2c_write [
  | none ↦ (error Err.invalid_config, d)
  | some write ↦
      if length bytes == 0
      then (error Err.invalid_config, d)
      else if ltb d.config.max_write_bytes (length bytes)
      then (error Err.buffer_overflow, d)
      else transact d write bytes
]

-- `busy` while an operation is active, its result waits, or a flush runs.
unfoldable pub check_direct_i2c_admission : Driver → Status
check_direct_i2c_admission d =
    if operation_active d || d.operation.result_ready || is_flushing d
    then error Err.busy
    else success

unfoldable pub i2c_write_tracked : Driver → List ℕ → Status × Driver
i2c_write_tracked d bytes =
    let d1 = if not (operation_active d) then settle_page_flush d else d in
    let (st, d2) = i2c_write_raw d1 bytes in (st, update_health d2 st)

unfoldable pub send_command : Driver → ℕ → Status × Driver
send_command d command = i2c_write_tracked d (ctrl_command ∷ command ∷ [])

unfoldable pub send_command2 : Driver → ℕ → ℕ → Status × Driver
send_command2 d command arg = i2c_write_tracked d (ctrl_command ∷ command ∷ arg ∷ [])

unfoldable pub send_command3 : Driver → ℕ → ℕ → ℕ → Status × Driver
send_command3 d command arg1 arg2 = i2c_write_tracked d (ctrl_command ∷ command ∷ arg1 ∷ arg2 ∷ [])

abbrev pub command_list_max_bytes : ℕ
command_list_max_bytes = 32

unfoldable pub send_command_list : Driver → List ℕ → Status × Driver
send_command_list d commands =
    if length commands == 0
    then (success, d)
    else if ltb command_list_max_bytes (length commands)
    then (error Err.invalid_config, d)
    else if ltb d.config.max_write_bytes (length commands + 1)
    then (error Err.buffer_overflow, d)
    else i2c_write_tracked d (ctrl_command ∷ commands)
