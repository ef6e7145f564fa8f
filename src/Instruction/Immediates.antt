-- ===== src/Instruction/Immediates.antt =====
-- The five immediate decoders against the RISC-V formats: each is the sign extension of the bits
-- that the format scatters over the word.
use redplanet.Base.{
  ℕ, ◌+◌, ◌-◌, ◌*◌, ◌/◌, ◌%◌, ◌^◌, ◌<◌, ◌≡◌, refl, subst, arith, if◌then◌else◌, ltb, bit_or, some,
}
use redplanet.Base.Bits.{bit_and_field, bit_or_fields}
use redplanet.Registers.{from_u5}
use redplanet.Instruction.Fields.{bits, rd, rs1, rs2, i_imm, s_imm, b_imm, u_imm, j_imm}

-- The 32-bit word that stands for the `width`-bit two's complement number `v`.
abbrev pub sign_extend : ℕ → ℕ → ℕ
sign_extend width v = if ltb v (2 ^ (width - 1)) then v else v + 2 ^ 32 - 2 ^ width

-- The immediates as the format tables of the specification list their bits, highest first.
abbrev pub s_bits : ℕ → ℕ
s_bits raw = bits raw 25 7 * 2 ^ 5 + bits raw 7 5

abbrev pub b_bits : ℕ → ℕ
b_bits raw =
    bits raw 31 1 * 2 ^ 12 + bits raw 7 1 * 2 ^ 11 + bits raw 25 6 * 2 ^ 5 + bits raw 8 4 * 2

abbrev pub j_bits : ℕ → ℕ
j_bits raw =
    bits raw 31 1 * 2 ^ 20 + bits raw 12 8 * 2 ^ 12 + bits raw 20 1 * 2 ^ 11 + bits raw 21 10 * 2

-- `bit_or_fields` with the high part given as a multiple of `2 ^ k`.
disjoint : (k hi lo : ℕ) → hi / 2 ^ k * 2 ^ k ≡ hi → lo < 2 ^ k → bit_or hi lo ≡ hi + lo
disjoint k hi lo multiple fits =
    subst (λ (t : ℕ). bit_or t lo ≡ t + lo) multiple (bit_or_fields k (hi / 2 ^ k) lo fits)

i_imm_lem : (raw : ℕ) → raw < 2 ^ 32 → i_imm raw ≡ sign_extend 12 (bits raw 20 12)
unfolding i_imm
i_imm_lem raw h = ground arith

s_imm_lem : (raw : ℕ) → raw < 2 ^ 32 → s_imm raw ≡ sign_extend 12 (s_bits raw)
unfolding s_imm
s_imm_lem raw h =
    rw
      (
        bit_and_field 7 25 raw,
        bit_and_field 5 7 raw,
        bit_or_fields 25 (bits raw 25 7) (bits raw 7 5 * 2 ^ 7 * 2 ^ 13 % 2 ^ 32) (omega arith),
      )
      (ground arith)

b_imm_lem : (raw : ℕ) → raw < 2 ^ 32 → b_imm raw ≡ sign_extend 13 (b_bits raw)
unfolding b_imm
b_imm_lem raw h =
    let i12 = bits raw 31 1 in
    let i11 = bits raw 7 1 * 2 ^ 7 * 2 ^ 23 % 2 ^ 32 in
    let i10_5 = bits raw 25 6 * 2 ^ 25 / 2 ^ 1 in
    let i4_1 = bits raw 8 4 * 2 ^ 8 * 2 ^ 12 % 2 ^ 32 in
    rw
      (
        bit_and_field 1 31 raw,
        bit_and_field 6 25 raw,
        bit_and_field 4 8 raw,
        bit_and_field 1 7 raw,
        bit_or_fields 31 i12 i11 (omega arith),
        disjoint 30 (i12 * 2 ^ 31 + i11) i10_5 (omega arith) (omega arith),
        disjoint 24 (i12 * 2 ^ 31 + i11 + i10_5) i4_1 (omega arith) (omega arith),
      )
      (ground arith)

j_imm_lem : (raw : ℕ) → raw < 2 ^ 32 → j_imm raw ≡ sign_extend 21 (j_bits raw)
unfolding j_imm
j_imm_lem raw h =
    let i20 = bits raw 31 1 in
    let i19_12 = bits raw 12 8 * 2 ^ 12 * 2 ^ 11 % 2 ^ 32 in
    let i11 = bits raw 20 1 * 2 ^ 20 * 2 ^ 2 % 2 ^ 32 in
    let i10_1 = bits raw 21 10 * 2 ^ 21 / 2 ^ 9 in
    rw
      (
        bit_and_field 1 31 raw,
        bit_and_field 10 21 raw,
        bit_and_field 1 20 raw,
        bit_and_field 8 12 raw,
        bit_or_fields 31 i20 i19_12 (omega arith),
        disjoint 23 (i20 * 2 ^ 31 + i19_12) i11 (omega arith) (omega arith),
        disjoint 22 (i20 * 2 ^ 31 + i19_12 + i11) i10_1 (omega arith) (omega arith),
      )
      (ground arith)

u_imm_lem : (raw : ℕ) → raw < 2 ^ 32 → u_imm raw ≡ bits raw 12 20 * 2 ^ 12
unfolding u_imm
u_imm_lem raw h = rw (bit_and_field 20 12 raw) refl

-- For a 32-bit word the five immediate decoders give the sign extension of the 12, 12, 13 and 21
-- bits that the I, S, B and J formats scatter, and the upper 20 bits, in place, of the U format.
pub immediates_of_formats :
    (raw : ℕ)
    → raw < 2 ^ 32
    → (i_imm raw ≡ sign_extend 12 (bits raw 20 12))
      × (s_imm raw ≡ sign_extend 12 (s_bits raw))
      × (b_imm raw ≡ sign_extend 13 (b_bits raw))
      × (j_imm raw ≡ sign_extend 21 (j_bits raw))
      × (u_imm raw ≡ bits raw 12 20 * 2 ^ 12)
immediates_of_formats raw h =
    (i_imm_lem raw h, s_imm_lem raw h, b_imm_lem raw h, j_imm_lem raw h, u_imm_lem raw h)

-- The three specifier fields of any word are specifiers that `Specifier::from_u5` accepts.
pub specifiers_fit :
    (raw : ℕ)
    → (from_u5 (rd raw) ≡ some (rd raw))
      × (from_u5 (rs1 raw) ≡ some (rs1 raw))
      × (from_u5 (rs2 raw) ≡ some (rs2 raw))
unfolding from_u5 rd rs1 rs2
specifiers_fit raw = (ground arith, ground arith, ground arith)
