-- ===== src/Core/Muldiv.antt =====
-- Rust's multiplications and divisions of 32-bit integers that the M extension uses. A signed
-- integer is the 32-bit word of its two's complement.
pub mod Bounds
pub mod Laws
use redplanet.Base.{
  ℕ, ◌+◌, ◌-◌, ◌*◌, ◌/◌, ◌%◌, ◌^◌, ◌==◌, Bool, ltb, if◌then◌else◌, ◌&&◌, ◌||◌, not,
}

unfoldable pub mul_u32 : ℕ → ℕ → ℕ
mul_u32 s1 s2 = (s1 * s2) % 2 ^ 32

-- `s as i32 as i64`, as a 64-bit word.
abbrev pub sign_extend_64 : ℕ → ℕ
sign_extend_64 a = if ltb a (2 ^ 31) then a else a + 2 ^ 64 - 2 ^ 32

-- `((a * b) >> 32) as u32` of two 64-bit words: no product of the operands overflows an `i64`.
abbrev pub high_half : ℕ → ℕ → ℕ
high_half a b = (a * b) % 2 ^ 64 / 2 ^ 32

unfoldable pub mulh_i32 : ℕ → ℕ → ℕ
mulh_i32 s1 s2 = high_half (sign_extend_64 s1) (sign_extend_64 s2)

unfoldable pub mulhsu_i32 : ℕ → ℕ → ℕ
mulhsu_i32 s1 s2 = high_half (sign_extend_64 s1) s2

unfoldable pub mulhu_u32 : ℕ → ℕ → ℕ
mulhu_u32 s1 s2 = high_half s1 s2

abbrev pub is_negative : ℕ → Bool
is_negative a = not (ltb a (2 ^ 31))

-- `unsigned_abs`, and the negation of a word.
abbrev pub abs_i32 : ℕ → ℕ
abs_i32 a = if ltb a (2 ^ 31) then a else 2 ^ 32 - a

abbrev pub neg_u32 : ℕ → ℕ
neg_u32 a = (2 ^ 32 - a) % 2 ^ 32

abbrev pub signed : Bool → ℕ → ℕ
signed negative magnitude = if negative then neg_u32 magnitude else magnitude

-- `overflowing_div` rounds towards zero, and its overflow gives the dividend.
unfoldable pub div_i32 : ℕ → ℕ → ℕ
div_i32 s1 s2 =
    if s2 == 0
    then 0xFFFF_FFFF
    else if is_negative s1
    then signed (not (is_negative s2)) (abs_i32 s1 / abs_i32 s2)
    else signed (is_negative s2) (abs_i32 s1 / abs_i32 s2)

unfoldable pub rem_i32 : ℕ → ℕ → ℕ
rem_i32 s1 s2 = if s2 == 0 then s1 else signed (is_negative s1) (abs_i32 s1 % abs_i32 s2)

-- `checked_div(s2).unwrap_or(0xFFFF_FFFF)`
unfoldable pub div_u32 : ℕ → ℕ → ℕ
div_u32 s1 s2 = if s2 == 0 then 0xFFFF_FFFF else s1 / s2

-- `checked_rem(s2).unwrap_or(s1)`
unfoldable pub rem_u32 : ℕ → ℕ → ℕ
rem_u32 s1 s2 = if s2 == 0 then s1 else s1 % s2
