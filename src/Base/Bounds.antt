-- ===== src/Base/Bounds.antt =====
-- The bitwise operations stay within a word.
use Prim.Native.Nat.{
  ℕ, zero, suc, ◌-◌, ◌/◌, ◌%◌, ◌^◌, ◌≤◌, ◌<◌, bit_and, bit_or, bit_xor, bit_and-bitwise, differ,
}
use mathlib.Core.Path.{◌≡◌, sym}
use native.Mathlib.Nat.{pow-suc}
use native.Mathlib.Omega.{arith}
use native.Mathlib.Nat.{pow-le-pow_right, pow-zero, mod-le}
use redplanet.Base.Bits.{bit_and_step, bit_or_step, bit_xor_step, div-two-pow-suc, bit_and_mask}
use redplanet.Base.Word.{sra_i32}

differ-lt : (a b : ℕ) → a < 2 → b < 2 → differ a b < 2
differ-lt zero b h k = k
differ-lt (suc a) zero h k = h
differ-lt (suc a) (suc b) h k = differ-lt a b (omega arith) (omega arith)

zero_of_lt : (a : ℕ) → a < 1 → a ≡ 0
zero_of_lt a h = omega arith

pub bit_and-lt : (w a b : ℕ) → a < 2 ^ w → bit_and a b < 2 ^ w
bit_and-lt zero a b h = rw (zero_of_lt a h) (simp bit_and-bitwise (omega arith))
bit_and-lt (suc w) a b h = omega (
  arith,
  bit_and_step a b,
  pow-suc 2 w,
  bit_and-lt w (a / 2) (b / 2) (omega (arith, pow-suc 2 w)),
)

pub bit_or-lt : (w a b : ℕ) → a < 2 ^ w → b < 2 ^ w → bit_or a b < 2 ^ w
bit_or-lt zero a b h k = rw (zero_of_lt a h, zero_of_lt b k) (omega arith)
bit_or-lt (suc w) a b h k = omega (
  arith,
  bit_or_step a b,
  pow-suc 2 w,
  bit_or-lt w (a / 2) (b / 2) (omega (arith, pow-suc 2 w)) (omega (arith, pow-suc 2 w)),
)

pub bit_xor-lt : (w a b : ℕ) → a < 2 ^ w → b < 2 ^ w → bit_xor a b < 2 ^ w
bit_xor-lt zero a b h k = rw (zero_of_lt a h, zero_of_lt b k) (omega arith)
bit_xor-lt (suc w) a b h k = omega (
  arith,
  bit_xor_step a b,
  pow-suc 2 w,
  differ-lt (a % 2) (b % 2) (omega arith) (omega arith),
  bit_xor-lt w (a / 2) (b / 2) (omega (arith, pow-suc 2 w)) (omega (arith, pow-suc 2 w)),
)

suc_sub : (w k : ℕ) → suc w - suc k ≡ w - k
suc_sub w k = omega arith

-- A shift to the right by `k` drops `k` bits.
pub div_pow-lt : (k w a : ℕ) → k ≤ w → a < 2 ^ w → a / 2 ^ k < 2 ^ (w - k)
div_pow-lt zero w a h lt = rw (sub_zero w) (omega (arith, lt, pow-zero 2))
  where
    sub_zero : (w : ℕ) → w - 0 ≡ w
    sub_zero w = omega arith
div_pow-lt (suc k) (suc w) a h lt =
    rw (sym (div-two-pow-suc a k), suc_sub w k)
      (div_pow-lt k w (a / 2) (omega arith) (omega (arith, lt, pow-suc 2 w)))
div_pow-lt (suc k) zero a h lt = absurd (omega arith)

pub sra_i32-lt : (a k : ℕ) → a < 2 ^ 32 → k ≤ 32 → sra_i32 a k < 2 ^ 32
sra_i32-lt a k h hk = ground (
  arith,
  div_pow-lt k 32 a hk h,
  pow-le-pow_right {n = 2} (omega arith) {i = 32 - k} {j = 32} (omega arith),
  pow-le-pow_right {n = 2} (omega arith) {i = 0} {j = k} (omega arith),
)

pub low_bits-lt : (k a : ℕ) → bit_and a (2 ^ k - 1) ≤ a
low_bits-lt k a = rw (bit_and_mask k a) (mod-le a (2 ^ k))
