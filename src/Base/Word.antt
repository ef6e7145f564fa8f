-- ===== src/Base/Word.antt =====
-- Rust's fixed-width words: a word is a native number below a power of two.
use Prim.Native.Nat.{ℕ, ◌+◌, ◌-◌, ◌*◌, ◌/◌, ◌%◌, ◌^◌, bit_and, bit_or}
use mathlib.Core.Bool.{Bool, true, false}
use mathlib.Core.List.{List, [], ◌∷◌, ◌++◌}
use redplanet.Base.Tests.{ltb, if◌then◌else◌}

abbrev pub u8 : ℕ → ℕ
u8 n = n % 2 ^ 8

abbrev pub u16 : ℕ → ℕ
u16 n = n % 2 ^ 16

abbrev pub u32 : ℕ → ℕ
u32 n = n % 2 ^ 32

abbrev pub u64 : ℕ → ℕ
u64 n = n % 2 ^ 64

infixl 75 ◌<<<◌ ◌>>>◌
abbrev pub ◌<<<◌ : ℕ → ℕ → ℕ
x <<< k = x * 2 ^ k

abbrev pub ◌>>>◌ : ℕ → ℕ → ℕ
x >>> k = x / 2 ^ k

-- `u32::wrapping_add`.
abbrev pub wrapping_add : ℕ → ℕ → ℕ
wrapping_add a b = (a + b) % 2 ^ 32

-- `u32::wrapping_sub`.
abbrev pub wrapping_sub : ℕ → ℕ → ℕ
wrapping_sub a b = (a + 2 ^ 32 - b) % 2 ^ 32

-- `!a` on a `u32`.
abbrev pub not_u32 : ℕ → ℕ
not_u32 a = 2 ^ 32 - 1 - a

-- An `i32` is kept as the `u32` with its bits; this is `(a as i32) < (b as i32)`.
abbrev pub lt_i32 : ℕ → ℕ → Bool
lt_i32 a b = ltb ((a + 2 ^ 31) % 2 ^ 32) ((b + 2 ^ 31) % 2 ^ 32)

-- `((a as i32) >> k) as u32`, for `k ≤ 31`: the sign is copied into the top `k` bits.
abbrev pub sra_i32 : ℕ → ℕ → ℕ
sra_i32 a k = if ltb a (2 ^ 31) then a / 2 ^ k else a / 2 ^ k + (2 ^ 32 - 2 ^ (32 - k))

-- Bit `i` of a word.
abbrev pub bit : ℕ → ℕ → Bool
bit a i = if ltb (a / 2 ^ i % 2) 1 then false else true

-- The word with bit `i` set to `v`: the bits above it, the bit, the bits below it.
abbrev pub set_bit : ℕ → ℕ → Bool → ℕ
set_bit a i v = a / 2 ^ (i + 1) * 2 ^ (i + 1) + (if v then 2 ^ i else 0) + a % 2 ^ i

-- `old & !mask | value & mask`, the write of a CSR.
abbrev pub masked : ℕ → ℕ → ℕ → ℕ
masked old value mask = bit_or (bit_and old (not_u32 mask)) (bit_and value mask)

-- `u32::to_le_bytes` and `u64::to_le_bytes`.
abbrev pub u32_to_le_bytes : ℕ → List ℕ
u32_to_le_bytes v = v % 2 ^ 8 ∷ v / 2 ^ 8 % 2 ^ 8 ∷ v / 2 ^ 16 % 2 ^ 8 ∷ v / 2 ^ 24 % 2 ^ 8 ∷ []

abbrev pub u64_to_le_bytes : ℕ → List ℕ
u64_to_le_bytes v = u32_to_le_bytes (v % 2 ^ 32) ++ u32_to_le_bytes (v / 2 ^ 32)

-- `u32::from_le_bytes` of four bytes.
abbrev pub u32_from_le_bytes : ℕ → ℕ → ℕ → ℕ → ℕ
u32_from_le_bytes a b c d = a + b * 2 ^ 8 + c * 2 ^ 16 + d * 2 ^ 24
