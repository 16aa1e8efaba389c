-- ===== src/Common.antt =====
-- The names that every other module uses: the libraries' own, passed on, the Boolean tests,
-- lists over the native numbers, fixed-width words, signed integers and bit masks.
pub mod Tests
pub mod Lists
pub mod Int
pub mod Word
pub mod Bits
pub mod Loops
pub use Tests.*
pub use Lists.*
unfoldable pub use Word.*
unfoldable pub use Bits.*
unfoldable pub use Loops.*
pub use Prim.Native.Nat.{ℕ, zero, suc, ◌+◌, ◌-◌, ◌*◌, ◌/◌, ◌%◌, ◌^◌, ◌≤◌, ◌<◌, min}
pub use Prim.Native.Nat.{bit_and, bit_or}
pub use mathlib.Core.Path.{◌≡◌, refl, sym, ap, ◌∙◌}
pub use mathlib.Core.Logic.{◌≢◌, ◌↔◌, ◌⊎◌, inl, inr}
pub use mathlib.Core.Bool.{Bool, true, false, ◌&&◌, ◌||◌, not, xor}
pub use mathlib.Core.Option.{Option, none, some}
pub use mathlib.Core.List.{List, [], ◌∷◌, ◌++◌, map}
pub use native.Mathlib.Omega.{arith}
