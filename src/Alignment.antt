-- ===== src/Alignment.antt =====
-- Alignments and byte orders, `Alignment` and `Endianness` of red-planet-core/src/lib.rs. An alignment is
-- the power of two in it, or 0.
use redplanet.Base.{
  ℕ, ◌+◌, ◌-◌, ◌%◌, ◌^◌, ◌==◌, Bool, not, ◌&&◌, Option, none, some, if◌then◌else◌, bit_and,
}

pub data Endianness : Type 0 where
  le be : Endianness

abbrev pub word : ℕ
word = 4

abbrev pub halfword : ℕ
halfword = 2

-- `u32::is_power_of_two`
abbrev pub is_power_of_two : ℕ → Bool
is_power_of_two n = not (n == 0) && bit_and n (n - 1) == 0

unfoldable pub natural_for_size : (size : ℕ) → Option ℕ
natural_for_size size =
    if size == 0 then some 0 else if is_power_of_two size then some size else none

unfoldable pub is_aligned : (alignment address : ℕ) → Bool
is_aligned alignment address = bit_and address ((alignment + 2 ^ 32 - 1) % 2 ^ 32) == 0
