-- ===== src/Common/Bits.antt =====
-- Bits of a byte, as the driver sets, clears and tests them with `|`, `& ~` and `&`.
use Prim.Native.Nat.{ℕ, zero, suc, ◌+◌, ◌*◌, ◌-◌, ◌%◌, ◌^◌, ◌<◌, bit_and, bit_or}
use mathlib.Core.Path.{sym, ◌≡◌, refl}
use mathlib.Core.Bool.{Bool, true, false, ◌&&◌, ◌||◌, not}
use native.Mathlib.Omega.{arith}
use mathlib.Core.Logic.{inl, inr}
use ssd.Common.Tests.{Bool-cases, if◌then◌else◌, ltb, ◌==◌}

-- `1u << p`, cut to a byte.
abbrev pub bit : ℕ → ℕ
bit p = 2 ^ p % 256

-- `m & (1u << p)`, as a test.
unfoldable pub has_bit : ℕ → ℕ → Bool
has_bit m p = not (bit_and m (bit p) == 0)

-- `m |= 1u << p`
unfoldable pub set_bit : ℕ → ℕ → ℕ
set_bit m p = bit_or m (bit p)

-- `m &= ~(1u << p)`
unfoldable pub clear_bit : ℕ → ℕ → ℕ
clear_bit m p = bit_and m (255 - bit p)

-- A law of the bytes is a law of finitely many cases, and evaluation decides it: the test holds
-- at every number under the bound.
every : (ℕ → Bool) → ℕ → Bool
every test zero = true
every test (suc bound) = if test bound then every test bound else false

every_at :
    (test : ℕ → Bool) (bound : ℕ) → every test bound ≡ true → (k : ℕ) → k < bound → test k ≡ true
unfolding every
every_at test zero checked k under = absurd (omega arith)
every_at test (suc bound) checked k under = elim (Bool-cases (k == bound)) [
  | inl last ↦ ground arith
  | inr earlier ↦ every_at test bound (ground arith) k (ground arith)
]

agree : Bool → Bool → Bool
agree true answer = answer
agree false answer = not answer

agree_eq : (first second : Bool) → agree first second ≡ true → first ≡ second
unfolding agree
agree_eq true second checked = sym checked
agree_eq false second checked = ground arith

-- A mask of a byte with two positions in it.
every_mask : (ℕ → ℕ → ℕ → Bool) → Bool
unfolding every
every_mask test = every (λ mask. every (λ i. every (test mask i) 8) 8) 256

every_mask_at :
    (test : ℕ → ℕ → ℕ → Bool) (mask i j : ℕ)
    → every_mask test ≡ true
    → mask < 256
    → i < 8
    → j < 8
    → test mask i j ≡ true
unfolding every_mask
every_mask_at test mask i j checked in_byte i_in j_in =
    let row = every_at (λ mask. every (λ i. every (test mask i) 8) 8) 256 checked mask in_byte in
    let cell = every_at (λ i. every (test mask i) 8) 8 row i i_in in
    every_at (test mask i) 8 cell j j_in

set_checked : every_mask (λ m i j. agree (has_bit (set_bit m i) j) (i == j || has_bit m j)) ≡ true
unfolding every_mask has_bit set_bit agree
set_checked = refl

clear_checked :
    every_mask (λ m i j. agree (has_bit (clear_bit m i) j) (not (i == j) && has_bit m j)) ≡ true
unfolding every_mask has_bit clear_bit agree
clear_checked = refl

size_checked : every_mask (λ m i j. ltb (set_bit m i) 256 && ltb (clear_bit m i) 256) ≡ true
unfolding every_mask set_bit clear_bit
size_checked = refl

pub has_bit-set_bit :
    (m i j : ℕ) → m < 256 → i < 8 → j < 8 → has_bit (set_bit m i) j ≡ (i == j || has_bit m j)
has_bit-set_bit m i j hm hi hj = agree_eq _ _ (every_mask_at _ m i j set_checked hm hi hj)

pub has_bit-clear_bit :
    (m i j : ℕ)
    → m < 256
    → i < 8
    → j < 8
    → has_bit (clear_bit m i) j ≡ (not (i == j) && has_bit m j)
has_bit-clear_bit m i j hm hi hj = agree_eq _ _ (every_mask_at _ m i j clear_checked hm hi hj)

pub set_bit-lt : (m i : ℕ) → m < 256 → i < 8 → set_bit m i < 256
set_bit-lt m i hm hi = ground (arith, every_mask_at _ m i 0 size_checked hm hi (omega arith))

pub clear_bit-lt : (m i : ℕ) → m < 256 → i < 8 → clear_bit m i < 256
clear_bit-lt m i hm hi = ground (arith, every_mask_at _ m i 0 size_checked hm hi (omega arith))

zero_checked : every (λ i. not (has_bit 0 i)) 8 ≡ true
unfolding every has_bit
zero_checked = refl

pub has_bit_zero : (i : ℕ) → i < 8 → has_bit 0 i ≡ false
has_bit_zero i hi = ground (arith, every_at (λ i. not (has_bit 0 i)) 8 zero_checked i hi)

nibbles_checked :
    every (λ a. every (λ b. bit_or (bit_and a 15 * 16) (bit_and b 15) == a * 16 + b) 16) 16 ≡ true
unfolding every
nibbles_checked = refl

-- Two digits of four bits make a byte.
pub bit_or-nibbles :
    (a b : ℕ) → a < 16 → b < 16 → bit_or (bit_and a 15 * 16) (bit_and b 15) ≡ a * 16 + b
bit_or-nibbles a b ha hb =
    let row =
      every_at (λ a. every (λ b. bit_or (bit_and a 15 * 16) (bit_and b 15) == a * 16 + b) 16) 16
        nibbles_checked a ha in
    let cell =
      every_at (λ b. bit_or (bit_and a 15 * 16) (bit_and b 15) == a * 16 + b) 16 row b hb in
    ground (arith, cell)

bit_six_checked : every (λ a. bit_or 64 (bit_and a 63) == 64 + a) 64 ≡ true
unfolding every
bit_six_checked = refl

-- Bit 6 over a number of six bits.
pub bit_or-six : (a : ℕ) → a < 64 → bit_or 64 (bit_and a 63) ≡ 64 + a
bit_or-six a h =
    let cell = every_at (λ a. bit_or 64 (bit_and a 63) == 64 + a) 64 bit_six_checked a h in
    ground (arith, cell)
