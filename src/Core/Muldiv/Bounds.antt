-- ===== src/Core/Muldiv/Bounds.antt =====
-- Every result of the multiplications and divisions is a 32-bit word.
use redplanet.Base.{ℕ, ◌/◌, ◌%◌, ◌^◌, ◌<◌, arith, Bool, true, false, not}
use native.Mathlib.Nat.{div-le_self, mod-le}
use redplanet.Core.Muldiv.{
  mul_u32, mulh_i32, mulhsu_i32, mulhu_u32, div_i32, div_u32, rem_i32, rem_u32, high_half,
  sign_extend_64, abs_i32, signed, is_negative,
}

pub mul_u32-lt : (a b : ℕ) → mul_u32 a b < 2 ^ 32
unfolding mul_u32
mul_u32-lt a b = omega arith

high_half-lt : (a b : ℕ) → high_half a b < 2 ^ 32
high_half-lt a b = omega arith

pub mulh_i32-lt : (a b : ℕ) → mulh_i32 a b < 2 ^ 32
unfolding mulh_i32
mulh_i32-lt a b = high_half-lt (sign_extend_64 a) (sign_extend_64 b)

pub mulhsu_i32-lt : (a b : ℕ) → mulhsu_i32 a b < 2 ^ 32
unfolding mulhsu_i32
mulhsu_i32-lt a b = high_half-lt (sign_extend_64 a) b

pub mulhu_u32-lt : (a b : ℕ) → mulhu_u32 a b < 2 ^ 32
unfolding mulhu_u32
mulhu_u32-lt a b = high_half-lt a b

pub abs_i32-lt : (a : ℕ) → a < 2 ^ 32 → abs_i32 a < 2 ^ 32
abs_i32-lt a h = ground (arith, h)

pub signed-lt : (n : Bool) (a : ℕ) → a < 2 ^ 32 → signed n a < 2 ^ 32
signed-lt true a h = omega arith
signed-lt false a h = h

quotient-lt : (a b : ℕ) → a < 2 ^ 32 → abs_i32 a / b < 2 ^ 32
quotient-lt a b h = omega (arith, div-le_self (abs_i32 a) b, abs_i32-lt a h)

pub div_i32-lt : (a b : ℕ) → a < 2 ^ 32 → div_i32 a b < 2 ^ 32
unfolding div_i32
div_i32-lt a b h = ground (
  arith,
  signed-lt (not (is_negative b)) (abs_i32 a / abs_i32 b) (quotient-lt a (abs_i32 b) h),
  signed-lt (is_negative b) (abs_i32 a / abs_i32 b) (quotient-lt a (abs_i32 b) h),
)

pub rem_i32-lt : (a b : ℕ) → a < 2 ^ 32 → rem_i32 a b < 2 ^ 32
unfolding rem_i32
rem_i32-lt a b h = ground (
  arith,
  signed-lt (is_negative a) (abs_i32 a % abs_i32 b)
      (omega (arith, mod-le (abs_i32 a) (abs_i32 b), abs_i32-lt a h)),
)

pub div_u32-lt : (a b : ℕ) → a < 2 ^ 32 → div_u32 a b < 2 ^ 32
unfolding div_u32
div_u32-lt a b h = ground (arith, div-le_self a b)

pub rem_u32-lt : (a b : ℕ) → a < 2 ^ 32 → rem_u32 a b < 2 ^ 32
unfolding rem_u32
rem_u32-lt a b h = ground (arith, mod-le a b)
