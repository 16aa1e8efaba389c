-- ===== src/Common/Word.antt =====
-- Fixed-width unsigned arithmetic, and the saturating helpers at the top of src/SSD1315.cpp.
pub mod Laws
use Prim.Native.Nat.{ℕ, ◌+◌, ◌-◌, ◌*◌, ◌/◌, ◌%◌}
use mathlib.Core.Bool.{◌&&◌, not}
use ssd.Common.Tests.{ltb, ◌==◌, if◌then◌else◌}

abbrev pub u8 : ℕ → ℕ
u8 n = n % 256

abbrev pub u16 : ℕ → ℕ
u16 n = n % 65536

abbrev pub u32 : ℕ → ℕ
u32 n = n % 4294967296

abbrev pub uint32_max : ℕ
uint32_max = 4294967295

-- `a - b` on `uint32_t`, for arguments below 2 ^ 32.
abbrev pub sub32 : ℕ → ℕ → ℕ
sub32 a b = (a + 4294967296 - b) % 4294967296

unfoldable pub saturated_add : ℕ → ℕ → ℕ
saturated_add a b = let room = uint32_max - a in if ltb room b then uint32_max else u32 (a + b)

unfoldable pub saturated_mul : ℕ → ℕ → ℕ
saturated_mul value factor =
    if not (factor == 0) && ltb (uint32_max / factor) value
    then uint32_max
    else u32 (value * factor)
