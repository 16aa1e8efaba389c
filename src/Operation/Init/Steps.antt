-- ===== src/Operation/Init/Steps.antt =====
-- _sendInitStep of src/SSD1315.cpp: the seventeen steps send the sequence of the table in section 7
-- of docs/SSD1315_CONTROLLER_REFERENCE.md, a frame each.
use mathlib.Core.Path.{subst}
use ssd.Common.{
  ℕ, zero, suc, inl, inr, Bool-cases, ◌==◌, get_or, sub32, bit_or-nibbles, bit_or-six, true, List,
  [], ◌∷◌, ◌-◌, ◌*◌, u8, bit_and, bit_or, if◌then◌else◌, ◌+◌, ◌≤◌, ◌<◌, ◌≡◌, arith, length,
}
use ssd.Config.{Config}
use ssd.Config.Validate.{is_some}
use ssd.Config.Validate.Laws.{IsUsable}
use ssd.Driver.{Driver, operation_active}
use ssd.Transport.{
  transact, i2c_write_raw, i2c_write_tracked, send_command, send_command2, send_command3,
  send_command_list,
}
use ssd.Operation.Init.{clock_div, precharge, send_late_step, send_init_step}
use ssd.Traffic.Quiet.{update_health-Bookkept}

-- A transport that takes frames of four bytes.
pub record Takes (d : Driver) : Type 0 where
  pub callback : is_some d.config.i2c_write ≡ true
  pub capacity : 4 ≤ d.config.max_write_bytes
  pub active : operation_active d ≡ true

-- The frame with these bytes, to the configured address, is all that was sent.
abbrev pub Sends : List ℕ → Driver → Driver → Type 0
Sends bytes d e =
    e.bus.sent
    ≡ record {
      address = d.config.i2c_address;
      bytes = bytes;
      timeout_ms = d.binding.transport_timeout_ms;
    }
      ∷ d.bus.sent

-- The bytes of the steps, as the table has them.
unfoldable pub table : Config → List (List ℕ)
table c =
    (0xAE ∷ [])
    ∷ (0x20 ∷ 0x00 ∷ [])
    ∷ ((0x40 + c.start_line) ∷ [])
    ∷ ((if c.flip_x then 0xA1 else 0xA0) ∷ [])
    ∷ (0xA8 ∷ (c.height - 1) ∷ [])
    ∷ ((if c.flip_y then 0xC8 else 0xC0) ∷ [])
    ∷ (0xD3 ∷ c.display_offset ∷ [])
    ∷ (0xDA ∷ c.com_pins ∷ [])
    ∷ (0xD5 ∷ (c.osc_frequency * 16 + (c.clock_divide - 1)) ∷ [])
    ∷ (0xD9 ∷ (c.precharge_phase2 * 16 + c.precharge_phase1) ∷ [])
    ∷ (0xDB ∷ c.vcomh ∷ [])
    ∷ (0x81 ∷ c.contrast ∷ [])
    ∷ (0xAD ∷ c.iref ∷ [])
    ∷ (0x8D ∷ c.charge_pump_voltage ∷ 0x2E ∷ [])
    ∷ (0xA4 ∷ 0x23 ∷ 0x00 ∷ [])
    ∷ ((if c.invert then 0xA7 else 0xA6) ∷ 0xD6 ∷ 0x00 ∷ [])
    ∷ (0xA3 ∷ 0x00 ∷ c.height ∷ [])
    ∷ []

-- The frame of step `n`: the control byte of commands, and the row of the table.
abbrev pub frame_of : Config → ℕ → List ℕ
frame_of c n = 0x00 ∷ get_or (table c) n []

i2c_write_raw-Sends :
    (d : Driver) (bytes : List ℕ)
    → Takes d
    → 1 ≤ length bytes
    → length bytes ≤ 4
    → Sends bytes d (i2c_write_raw d bytes).1
unfolding i2c_write_raw transact
i2c_write_raw-Sends d bytes t lo hi = ground arith

i2c_write_tracked-Sends :
    (d : Driver) (bytes : List ℕ)
    → Takes d
    → 1 ≤ length bytes
    → length bytes ≤ 4
    → Sends bytes d (i2c_write_tracked d bytes).1
unfolding i2c_write_tracked
i2c_write_tracked-Sends d bytes t lo hi =
    let (st, e) = i2c_write_raw d bytes in
    ground (arith, i2c_write_raw-Sends d bytes t lo hi, update_health-Bookkept e st)

send_command-Sends : (d : Driver) (c : ℕ) → Takes d → Sends (0 ∷ c ∷ []) d (send_command d c).1
unfolding send_command
send_command-Sends d c t = i2c_write_tracked-Sends d _ t (omega arith) (omega arith)

send_command2-Sends :
    (d : Driver) (c a : ℕ) → Takes d → Sends (0 ∷ c ∷ a ∷ []) d (send_command2 d c a).1
unfolding send_command2
send_command2-Sends d c a t = i2c_write_tracked-Sends d _ t (omega arith) (omega arith)

send_command3-Sends :
    (d : Driver) (c a b : ℕ) → Takes d → Sends (0 ∷ c ∷ a ∷ b ∷ []) d (send_command3 d c a b).1
unfolding send_command3
send_command3-Sends d c a b t = i2c_write_tracked-Sends d _ t (omega arith) (omega arith)

send_command_list-Sends :
    (d : Driver) (a b c : ℕ)
    → Takes d
    → Sends (0 ∷ a ∷ b ∷ c ∷ []) d (send_command_list d (a ∷ b ∷ c ∷ [])).1
unfolding send_command_list
send_command_list-Sends d a b c t =
    let k = i2c_write_tracked-Sends d (0 ∷ a ∷ b ∷ c ∷ []) t (omega arith) (omega arith) in
    ground (arith, k, t.capacity)

clock_div_lem :
    (c : Config) → IsUsable c → clock_div c ≡ c.osc_frequency * 16 + (c.clock_divide - 1)
clock_div_lem c u =
    let r = u.registers in
    let k =
      bit_or-nibbles c.osc_frequency (sub32 c.clock_divide 1) (ground (arith, r))
        (ground (arith, r)) in
    ground (arith, k, r)

precharge_lem :
    (c : Config) → IsUsable c → precharge c ≡ c.precharge_phase2 * 16 + c.precharge_phase1
precharge_lem c u =
    let r = u.registers in
    let k =
      bit_or-nibbles c.precharge_phase2 c.precharge_phase1 (ground (arith, r))
        (ground (arith, r)) in
    ground (arith, k, r)

start_line_lem :
    (c : Config) → IsUsable c → u8 (bit_or 0x40 (bit_and c.start_line 0x3F)) ≡ 0x40 + c.start_line
start_line_lem c u =
    let r = u.registers in
    let k = bit_or-six c.start_line (ground (arith, r)) in ground (arith, k, r)

multiplex_lem : (c : Config) → IsUsable c → u8 (sub32 c.height 1) ≡ c.height - 1
multiplex_lem c u = let p = u.panel in ground (arith, p)

-- The steps from `k` on, `m` of them.
abbrev From : (ℕ → Type 0) → ℕ → ℕ → Type 0
From P k zero = 0 ≤ 0
From P k (suc m) = P k × From P (suc k) m

From-at : (P : ℕ → Type 0) (k m n : ℕ) → From P k m → k ≤ n → n < k + m → P n
From-at P k zero n f lo hi = absurd (omega (arith, lo, hi))
From-at P k (suc m) n (here, more) lo hi = elim (Bool-cases (k == n)) [
  | inl same ↦ let e : k ≡ n = ground (arith, same) in subst P e here
  | inr other ↦ From-at P (suc k) m n more (ground (arith, lo, other)) (omega (arith, hi))
]

-- While an operation is active, with a usable configuration bound, each of the seventeen
-- initialization steps hands exactly one frame to the write callback: the control byte of commands
-- and the bytes that the documented sequence has for the step.
pub send_init_step-Sends :
    (d : Driver) (n : ℕ)
    → Takes d
    → IsUsable d.config
    → n < 17
    → Sends (frame_of d.config n) d (send_init_step d n).1
unfolding send_init_step send_late_step table
send_init_step-Sends d n t u h =
    let one = λ (a : ℕ). send_command-Sends d a t in
    let two = λ (a : ℕ) (b : ℕ). send_command2-Sends d a b t in
    let listed = λ (a : ℕ) (b : ℕ) (e : ℕ). send_command_list-Sends d a b e t in
    From-at (λ k. Sends (frame_of d.config k) d (send_init_step d k).1) 0 17 n
      (
        one _,
        (
          two _ _,
          (
            rw (← start_line_lem d.config u) (one _),
            (
              one _,
              (
                rw (← multiplex_lem d.config u) (two _ _),
                (
                  one _,
                  (
                    two _ _,
                    (
                      two _ _,
                      (
                        rw (← clock_div_lem d.config u) (two _ _),
                        (
                          rw (← precharge_lem d.config u) (two _ _),
                          (
                            two _ _,
                            (
                              two _ _,
                              (
                                two _ _,
                                (
                                  listed _ _ _,
                                  (
                                    listed _ _ _,
                                    (listed _ _ _, (send_command3-Sends d _ _ _ t, omega arith)),
                                  ),
                                ),
                              ),
                            ),
                          ),
                        ),
                      ),
                    ),
                  ),
                ),
              ),
            ),
          ),
        ),
      )
      (omega arith) (omega (arith, h))
