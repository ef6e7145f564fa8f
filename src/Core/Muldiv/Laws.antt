-- ===== src/Core/Muldiv/Laws.antt =====
-- The multiplications and divisions against integer arithmetic.
use redplanet.Base.{
  ℕ, ◌+◌, ◌-◌, ◌*◌, ◌/◌, ◌%◌, ◌^◌, ◌<◌, ◌≤◌, ◌≡◌, ap, arith, ◌⊎◌, inl, inr, ◌==◌, Bool-cases, subst,
  ◌∙◌, true, false, ltb,
}
use native.Mathlib.Nat.{div-le_self, mod-le, mul-le-mul}
use native.Mathlib.Omega.{div_any}
use redplanet.Core.Muldiv.{mul_u32, mulh_i32, mulhu_u32, div_i32, rem_i32, sign_extend_64, neg_u32}

product-lt : (a b : ℕ) → a < 2 ^ 32 → b < 2 ^ 32 → a * b < 2 ^ 64
product-lt a b h k = omega (
  arith,
  mul-le-mul {n₁ = a} {m₁ = b} {n₂ = 2 ^ 32 - 1} {m₂ = 2 ^ 32 - 1} (omega arith) (omega arith),
)

-- The unsigned high half and the low half are the product of two words.
pub mulhu_u32-mul_u32 :
    (a b : ℕ) → a < 2 ^ 32 → b < 2 ^ 32 → mulhu_u32 a b * 2 ^ 32 + mul_u32 a b ≡ a * b
unfolding mulhu_u32 mul_u32
mulhu_u32-mul_u32 a b h k = omega (arith, product-lt a b h k)

expand : (a b c d : ℕ) → (a + c) * (b + d) ≡ a * b + a * d + c * b + c * d
expand a b c d = omega arith

-- What sign extension adds: nothing, or 32 ones above the word.
extension :
    (a : ℕ) → a < 2 ^ 32 → (sign_extend_64 a ≡ a + 0) ⊎ (sign_extend_64 a ≡ a + (2 ^ 64 - 2 ^ 32))
extension a h = ground (arith, h)

halves :
    (p q : ℕ) → p % 2 ^ 32 ≡ q % 2 ^ 32 → p % 2 ^ 64 / 2 ^ 32 * 2 ^ 32 + q % 2 ^ 32 ≡ p % 2 ^ 64
halves p q h = omega (arith, h)

same_low :
    (a b x y : ℕ)
    → (x ≡ a + 0) ⊎ (x ≡ a + (2 ^ 64 - 2 ^ 32))
    → (y ≡ b + 0) ⊎ (y ≡ b + (2 ^ 64 - 2 ^ 32))
    → (x * y) % 2 ^ 32 ≡ (a * b) % 2 ^ 32
same_low a b x y (inl p) (inl q) = rw (p, q) (omega (arith, expand a b 0 0))
same_low a b x y (inl p) (inr q) = rw (p, q) (omega (arith, expand a b 0 (2 ^ 64 - 2 ^ 32)))
same_low a b x y (inr p) (inl q) = rw (p, q) (omega (arith, expand a b (2 ^ 64 - 2 ^ 32) 0))
same_low a b x y (inr p) (inr q) =
    rw (p, q) (omega (arith, expand a b (2 ^ 64 - 2 ^ 32) (2 ^ 64 - 2 ^ 32)))

-- The signed high half and the low half are the 64-bit two's complement of the product.
pub mulh_i32-mul_u32 :
    (a b : ℕ)
    → a < 2 ^ 32
    → b < 2 ^ 32
    → mulh_i32 a b * 2 ^ 32 + mul_u32 a b ≡ (sign_extend_64 a * sign_extend_64 b) % 2 ^ 64
unfolding mulh_i32 mul_u32
mulh_i32-mul_u32 a b h k =
    halves _ _ (same_low a b (sign_extend_64 a) (sign_extend_64 b) (extension a h) (extension b k))

zero_or : (q : ℕ) → (q ≡ 0) ⊎ (1 ≤ q)
zero_or q = omega arith

complement_left : (c q b : ℕ) → c + q ≡ 2 ^ 32 → c * b + q * b ≡ 2 ^ 32 * b
complement_left c q b e = omega (arith, ap (λ (t : ℕ). t * b) e)

complement_both :
    (c q d b : ℕ)
    → c + q ≡ 2 ^ 32
    → d + b ≡ 2 ^ 32
    → c * d + 2 ^ 32 * q + 2 ^ 32 * b ≡ 2 ^ 32 * 2 ^ 32 + q * b
complement_both c q d b e f = omega (
  arith,
  complement_left c q d e,
  complement_left c q b e,
  ap (λ (t : ℕ). q * t) f,
  ap (λ (t : ℕ). 2 ^ 32 * t) f,
)

neg_pos_word : (q : ℕ) → 1 ≤ q → q ≤ 2 ^ 31 → neg_u32 q ≡ 2 ^ 32 - q
neg_pos_word q n h = omega arith

-- The four combinations of signs, on the magnitudes of dividend, divisor, quotient and remainder.
module _ (x y q r : ℕ) (e : y * q + r ≡ x) (x_fits : x ≤ 2 ^ 31) (y_fits : y ≤ 2 ^ 31)
    (q_fits : q ≤ 2 ^ 31) (r_fits : r ≤ 2 ^ 31) where
  pos_pos : (q * y + r) % 2 ^ 32 ≡ x
  pos_pos = omega (arith, e)

  pos_neg : (neg_u32 q * (2 ^ 32 - y) + r) % 2 ^ 32 ≡ x
  pos_neg = elim (zero_or q) [
    | inl z ↦ rw z (omega (arith, e, ap (λ (t : ℕ). y * t) z))
    | inr n ↦ rw (neg_pos_word q n q_fits) (
        omega (arith, e, complement_both (2 ^ 32 - q) q (2 ^ 32 - y) y (omega arith) (omega arith)))
  ]

  neg_pos : (neg_u32 q * y + neg_u32 r) % 2 ^ 32 ≡ neg_u32 x
  neg_pos = elim (zero_or q) [
    | inl z ↦ rw z (omega (arith, e, ap (λ (t : ℕ). y * t) z))
    | inr n ↦
        rw (neg_pos_word q n q_fits)
          (omega (arith, e, complement_left (2 ^ 32 - q) q y (omega arith)))
  ]

  neg_neg : (q * (2 ^ 32 - y) + neg_u32 r) % 2 ^ 32 ≡ neg_u32 x
  neg_neg = omega (arith, e, complement_left (2 ^ 32 - y) y q (omega arith))

quotient_fits : (x y : ℕ) → x ≤ 2 ^ 31 → x / y ≤ 2 ^ 31
quotient_fits x y h = omega (arith, div-le_self x y)

remainder_fits : (x y : ℕ) → x ≤ 2 ^ 31 → x % y ≤ 2 ^ 31
remainder_fits x y h = omega (arith, mod-le x y)

complement_twice : (b : ℕ) → b < 2 ^ 32 → 2 ^ 32 - (2 ^ 32 - b) ≡ b
complement_twice b k = omega arith

small : (a : ℕ) → ltb a (2 ^ 31) ≡ true → a ≤ 2 ^ 31
small a e = ground (arith, e)

large : (a : ℕ) → ltb a (2 ^ 31) ≡ false → 2 ^ 31 ≤ a
large a e = ground (arith, e)

flip : (a : ℕ) → ltb a (2 ^ 31) ≡ false → 2 ^ 32 - a ≤ 2 ^ 31
flip a e = omega (arith, large a e)

neg_of_abs : (a : ℕ) → a < 2 ^ 32 → 2 ^ 31 ≤ a → neg_u32 (2 ^ 32 - a) ≡ a
neg_of_abs a h e = omega arith

-- The four combinations again, of words.
module _ (a b : ℕ) (h : a < 2 ^ 32) (k : b < 2 ^ 32) where
  both_small : a ≤ 2 ^ 31 → b ≤ 2 ^ 31 → (a / b * b + a % b) % 2 ^ 32 ≡ a
  both_small p q =
      pos_pos a b (a / b) (a % b) (div_any a b) p q (quotient_fits a b p) (remainder_fits a b p)

  large_divisor :
      (y : ℕ)
      → 2 ^ 32 - y ≡ b
      → a ≤ 2 ^ 31
      → y ≤ 2 ^ 31
      → (neg_u32 (a / y) * b + a % y) % 2 ^ 32 ≡ a
  large_divisor y e p q =
      subst (λ (t : ℕ). (neg_u32 (a / y) * t + a % y) % 2 ^ 32 ≡ a) e
        (pos_neg a y (a / y) (a % y) (div_any a y) p q (quotient_fits a y p) (remainder_fits a y p))

  large_dividend :
      (x : ℕ)
      → neg_u32 x ≡ a
      → x ≤ 2 ^ 31
      → b ≤ 2 ^ 31
      → (neg_u32 (x / b) * b + neg_u32 (x % b)) % 2 ^ 32 ≡ a
  large_dividend x e p q =
      neg_pos x b (x / b) (x % b) (div_any x b) p q (quotient_fits x b p) (remainder_fits x b p) ∙ e

  both_large :
      (x y : ℕ)
      → neg_u32 x ≡ a
      → 2 ^ 32 - y ≡ b
      → x ≤ 2 ^ 31
      → y ≤ 2 ^ 31
      → (x / y * b + neg_u32 (x % y)) % 2 ^ 32 ≡ a
  both_large x y e f p q =
      subst (λ (t : ℕ). (x / y * t + neg_u32 (x % y)) % 2 ^ 32 ≡ a) f
        (neg_neg x y (x / y) (x % y) (div_any x y) p q (quotient_fits x y p) (remainder_fits x y p)
          ∙ e)

-- For any two words, also when the divisor is zero or the quotient overflows, the signed quotient
-- times the divisor plus the signed remainder is the dividend, modulo 2 ^ 32.
pub div_i32-rem_i32 :
    (a b : ℕ) → a < 2 ^ 32 → b < 2 ^ 32 → (div_i32 a b * b + rem_i32 a b) % 2 ^ 32 ≡ a
unfolding div_i32 rem_i32
div_i32-rem_i32 a b h k = elim (Bool-cases (b == 0)) [
  | inl z ↦ rw z (omega (arith, h, zero_product z))
  | inr n ↦ elim (Bool-cases (ltb a (2 ^ 31))) [
    | inl pa ↦ elim (Bool-cases (ltb b (2 ^ 31))) [
      | inl pb ↦ rw (n, pa, pb) (both_small a b h k (small a pa) (small b pb))
      | inr nb ↦
          rw (n, pa, nb)
            (large_divisor a b h k (2 ^ 32 - b) (complement_twice b k) (small a pa) (flip b nb))
    ]
    | inr na ↦ elim (Bool-cases (ltb b (2 ^ 31))) [
      | inl pb ↦
          rw (n, na, pb)
            (large_dividend a b h k (2 ^ 32 - a) (neg_of_abs a h (large a na)) (flip a na)
              (small b pb))
      | inr nb ↦
          rw (n, na, nb)
            (both_large a b h k (2 ^ 32 - a) (2 ^ 32 - b) (neg_of_abs a h (large a na))
              (complement_twice b k) (flip a na) (flip b nb))
    ]
  ]
]
  where
    zero_product : (b == 0) ≡ true → 0xFFFF_FFFF * b ≡ 0
    zero_product z = ground (arith, z)
