-- ===== src/Base/Bits.antt =====
-- Bits of a word as arithmetic: one bit read, set or cleared, and masks.
use Prim.Native.Nat.{
  ℕ, zero, suc, ◌+◌, ◌-◌, ◌*◌, ◌/◌, ◌%◌, ◌^◌, ◌≤◌, ◌<◌, min, max, differ, digits, bitwise, bit_and,
  bit_or, bit_xor, bit_and-bitwise, bit_or-bitwise, bit_xor-bitwise,
}
use mathlib.Core.Path.{◌≡◌, refl, sym, ap, ◌∙◌}
use native.Mathlib.Nat.{pow-suc, one-le-pow, div-div-eq-div-mul}
use native.Mathlib.Omega.{arith}

-- An operation on digits is computed with a bound on their number; any bound that the first
-- operand meets gives the same.
module _ (rest : ℕ → ℕ) (digit : ℕ → ℕ → ℕ) where
  digits_of_zero : (bound y : ℕ) → digits rest digit bound zero y ≡ rest y
  digits_of_zero zero y = refl
  digits_of_zero (suc bound) y = refl

  digits_stable :
      (bound other x y : ℕ)
      → x ≤ bound
      → x ≤ other
      → digits rest digit bound x y ≡ digits rest digit other x y
  digits_stable bound other zero y p q = digits_of_zero bound y ∙ sym (digits_of_zero other y)
  digits_stable zero other (suc x) y p q = absurd (omega (arith, p))
  digits_stable (suc bound) zero (suc x) y p q = absurd (omega (arith, q))
  digits_stable (suc bound) (suc other) (suc x) y p q =
      ap (λ (high : ℕ). high * 2 + digit (suc x % 2) (y % 2))
        (digits_stable bound other (suc x / 2) (y / 2) (omega (arith, p)) (omega (arith, q)))

  -- The lowest digit and the others, for an operation that agrees with `rest` on the digits past
  -- the end of the first operand.
  lowest_digit :
      ((y : ℕ) → rest y ≡ rest (y / 2) * 2 + digit 0 (y % 2))
      → (x y : ℕ)
      → bitwise rest digit x y ≡ bitwise rest digit (x / 2) (y / 2) * 2 + digit (x % 2) (y % 2)
  lowest_digit agrees zero y = agrees y
  lowest_digit agrees (suc x) y =
      ap (λ (high : ℕ). high * 2 + digit (suc x % 2) (y % 2))
        (digits_stable x (suc x / 2) (suc x / 2) (y / 2) (omega arith) (omega arith))

pub bit_and_step : (a b : ℕ) → bit_and a b ≡ bit_and (a / 2) (b / 2) * 2 + min (a % 2) (b % 2)
bit_and_step a b = simp bit_and-bitwise (lowest_digit (λ y. 0) min (λ y. omega arith) a b)

pub bit_or_step : (a b : ℕ) → bit_or a b ≡ bit_or (a / 2) (b / 2) * 2 + max (a % 2) (b % 2)
bit_or_step a b = simp bit_or-bitwise (lowest_digit (λ y. y) max (λ y. omega arith) a b)

pub bit_xor_step : (a b : ℕ) → bit_xor a b ≡ bit_xor (a / 2) (b / 2) * 2 + differ (a % 2) (b % 2)
bit_xor_step a b = simp bit_xor-bitwise (lowest_digit (λ y. y) differ (λ y. omega arith) a b)

-- Zero as the second operand, by halving the first one below a bound.
and_or_zero : (bound a : ℕ) → a ≤ bound → (bit_and a 0 ≡ 0) × (bit_or a 0 ≡ a)
and_or_zero zero a h = rw (le_zero a h) (refl, refl)
  where
    le_zero : (a : ℕ) → a ≤ 0 → a ≡ 0
    le_zero a h = omega arith
and_or_zero (suc bound) a h =
    let (conj, disj) = and_or_zero bound (a / 2) (omega (arith, h)) in
    (omega (arith, conj, bit_and_step a 0), omega (arith, disj, bit_or_step a 0))

bit_and-zero : (a : ℕ) → bit_and a 0 ≡ 0
bit_and-zero a = (and_or_zero a a (omega arith)).0

bit_or-zero : (a : ℕ) → bit_or a 0 ≡ a
bit_or-zero a = (and_or_zero a a (omega arith)).1

times_pow_suc : (q k : ℕ) → q * 2 ^ suc k ≡ q * 2 ^ k * 2
times_pow_suc q k = rw (pow-suc 2 k) (omega arith)

-- A mask of `k` ones keeps the remainder by `2 ^ k`.
bit_and_fields : (k q r : ℕ) → r < 2 ^ k → bit_and (q * 2 ^ k + r) (2 ^ k - 1) ≡ r
bit_and_fields zero q r fits = ground (arith, fits, bit_and-zero (q * 2 ^ zero + r))
bit_and_fields (suc k) q r fits =
    let halved = bit_and_fields k q (r / 2) (omega (arith, fits, pow-suc 2 k)) in
    let step = bit_and_step (q * 2 ^ suc k + r) (2 ^ suc k - 1) in
    ground (arith, halved, step, times_pow_suc q k, pow-suc 2 k)

pub bit_and_mask : (k a : ℕ) → bit_and a (2 ^ k - 1) ≡ a % 2 ^ k
bit_and_mask k a = ground (arith, one-le-pow k 2, bit_and_fields k (a / 2 ^ k) (a % 2 ^ k))

-- `hi << k | lo` is a sum when `lo` fits `k` bits, and `hi << k & lo` is zero.
high_low :
    (k hi lo : ℕ)
    → lo < 2 ^ k
    → (bit_or (hi * 2 ^ k) lo ≡ hi * 2 ^ k + lo) × (bit_and (hi * 2 ^ k) lo ≡ 0)
high_low zero hi lo h = (ground (arith, h, bit_or-zero hi), ground (arith, h, bit_and-zero hi))
high_low (suc k) hi lo h =
    let (sum, none) = high_low k hi (lo / 2) (omega (arith, h, pow-suc 2 k)) in
    (
      ground (arith, sum, times_pow_suc hi k, bit_or_step (hi * 2 ^ suc k) lo),
      ground (arith, none, times_pow_suc hi k, bit_and_step (hi * 2 ^ suc k) lo),
    )

pub bit_or_fields : (k q r : ℕ) → r < 2 ^ k → bit_or (q * 2 ^ k) r ≡ q * 2 ^ k + r
bit_or_fields k q r fits = (high_low k q r fits).0

pub bit_and_high_low : (k q r : ℕ) → r < 2 ^ k → bit_and (q * 2 ^ k) r ≡ 0
bit_and_high_low k q r fits = (high_low k q r fits).1

pub div-two-pow-suc : (a l : ℕ) → a / 2 / 2 ^ l ≡ a / 2 ^ suc l
div-two-pow-suc a l =
    div-div-eq-div-mul a 2 (2 ^ l) ∙ ap (λ (t : ℕ). a / t) (omega (arith, pow-suc 2 l))

-- A mask of `n` ones from bit `l` on keeps that field in its place.
pub bit_and_field : (n l a : ℕ) → bit_and a ((2 ^ n - 1) * 2 ^ l) ≡ a / 2 ^ l % 2 ^ n * 2 ^ l
bit_and_field n zero a = ground (arith, bit_and_mask n a)
bit_and_field n (suc l) a = ground (
  arith,
  bit_and_step a ((2 ^ n - 1) * 2 ^ suc l),
  times_pow_suc (2 ^ n - 1) l,
  times_pow_suc (a / 2 ^ suc l % 2 ^ n) l,
  bit_and_field n l (a / 2),
  div-two-pow-suc a l,
)
