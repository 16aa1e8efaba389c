-- ===== src/Control/Raw.antt =====
-- sendCommand, sendCommand2, sendCommand3, sendCommandList and probe of src/SSD1315.cpp.
use ssd.Common.{ℕ, Option, none, some, List, [], ◌∷◌, ◌+◌, ltb, ◌==◌, not, if◌then◌else◌, take}
use ssd.Status.{Status, Err, success, error, error_detail, is, is_ok}
use ssd.Command.{ctrl_command, nop}
use ssd.Driver.{Driver}
use ssd.Power.{mark_raw_command_failure}
use ssd.Transport.{
  check_direct_i2c_admission, i2c_write_raw, send_command as send_command_internal,
  send_command2 as send_command2_internal, send_command3 as send_command3_internal,
  send_command_list as send_command_list_internal, command_list_max_bytes,
}
use ssd.Operation.Result.{invalidate_panel_state}

-- The two guards of every direct command.
abbrev pub admitted : Driver → (Status × Driver) → Status × Driver
admitted d run =
    let admission = check_direct_i2c_admission d in
    if not (is_ok admission)
    then (admission, d)
    else if not d.binding.initialized
    then (error Err.not_initialized, d)
    else run

-- The outcome of a raw command: nothing cached is certain any more.
unfoldable pub raw_outcome : Status × Driver → Status × Driver
raw_outcome (st, d) =
    (st, if is_ok st then invalidate_panel_state d else mark_raw_command_failure d st)

unfoldable pub send_command : Driver → ℕ → Status × Driver
send_command d command = admitted d (raw_outcome (send_command_internal d command))

unfoldable pub send_command2 : Driver → ℕ → ℕ → Status × Driver
send_command2 d command arg = admitted d (raw_outcome (send_command2_internal d command arg))

unfoldable pub send_command3 : Driver → ℕ → ℕ → ℕ → Status × Driver
send_command3 d command arg1 arg2 =
    admitted d (raw_outcome (send_command3_internal d command arg1 arg2))

-- A pointer, null if `none`, and the number of bytes to read there.
unfoldable pub send_command_list : Driver → Option (List ℕ) → ℕ → Status × Driver
send_command_list d commands len = admitted d (
    if len == 0 then (success, d) else elim commands [
      | none ↦ (error Err.invalid_config, d)
      | some bytes ↦
          if ltb command_list_max_bytes len
          then (error Err.buffer_overflow, d)
          else if ltb d.config.max_write_bytes (len + 1)
          then (error Err.buffer_overflow, d)
          else raw_outcome (send_command_list_internal d (take len bytes))
    ])

unfoldable pub probe_raw : Driver → Status × Driver
probe_raw d =
    let (st, e) = i2c_write_raw d (ctrl_command ∷ nop ∷ []) in
    if is st Err.i2c_nack_addr then (error_detail Err.device_not_found st.detail, e) else (st, e)

unfoldable pub probe : Driver → Status × Driver
probe d =
    if not d.binding.attached
    then (error Err.not_initialized, d)
    else let admission = check_direct_i2c_admission d in
      if not (is_ok admission) then (admission, d) else probe_raw d
