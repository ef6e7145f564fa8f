-- ===== src/Base/Masks.antt =====
-- Masked writes: what they keep of a word.
use Prim.Native.Nat.{ℕ, zero, suc, min, ◌/◌, ◌%◌, ◌^◌, ◌<◌, bit_and, bit_or}
use mathlib.Core.Path.{◌≡◌, ap}
use mathlib.Core.Bool.{◌&&◌}
use native.Mathlib.Omega.{arith}
use redplanet.Base.Bits.{bit_and_step, bit_or_step, div-two-pow-suc}
use redplanet.Base.Bounds.{bit_and-lt, bit_or-lt}
use redplanet.Base.Word.{masked, not_u32, bit}

pub masked-lt :
    (old value mask : ℕ) → old < 2 ^ 32 → value < 2 ^ 32 → masked old value mask < 2 ^ 32
masked-lt old value mask h k =
    bit_or-lt 32 _ _ (bit_and-lt 32 old (not_u32 mask) h) (bit_and-lt 32 value mask k)

-- The two lowest bits of the bitwise operations.
pub bit_and_low : (a b : ℕ) → a % 4 ≡ 0 → bit_and a b % 4 ≡ 0
bit_and_low a b h = omega (arith, h, bit_and_step a b, bit_and_step (a / 2) (b / 2))

pub bit_and_low_right : (a b : ℕ) → b % 4 ≡ 0 → bit_and a b % 4 ≡ 0
bit_and_low_right a b h = omega (arith, h, bit_and_step a b, bit_and_step (a / 2) (b / 2))

pub bit_or_low : (a b : ℕ) → a % 4 ≡ 0 → b % 4 ≡ 0 → bit_or a b % 4 ≡ 0
bit_or_low a b h k = omega (arith, h, k, bit_or_step a b, bit_or_step (a / 2) (b / 2))

-- A bit of a conjunction, as a digit and as a Boolean.
digit_of_and : (k a b : ℕ) → bit_and a b / 2 ^ k % 2 ≡ min (a / 2 ^ k % 2) (b / 2 ^ k % 2)
digit_of_and zero a b = omega (arith, bit_and_step a b)
digit_of_and (suc k) a b = omega (
  arith,
  div-two-pow-suc (bit_and a b) k,
  div-two-pow-suc a k,
  div-two-pow-suc b k,
  ap (λ (t : ℕ). t / 2 ^ k % 2) (halved a b),
  digit_of_and k (a / 2) (b / 2),
)
  where
    halved : (a b : ℕ) → bit_and a b / 2 ≡ bit_and (a / 2) (b / 2)
    halved a b = omega (arith, bit_and_step a b)

pub bit-bit_and : (a b k : ℕ) → bit (bit_and a b) k ≡ (bit a k && bit b k)
bit-bit_and a b k = ground (arith, digit_of_and k a b)
