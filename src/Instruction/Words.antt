-- ===== src/Instruction/Words.antt =====
-- The fields and immediates of the words that `Encode` builds.
use redplanet.Base.{
  ℕ, ◌+◌, ◌*◌, ◌/◌, ◌%◌, ◌^◌, ◌<◌, ◌≡◌, refl, ◌∙◌, arith, ◌==◌, ◌≤◌, Bool, true, false, from_bool,
}
use redplanet.Instruction.Types.{
  CsrOp, FenceOrderCombination, RegImmOp, RegShiftImmOp, AmoOp, RegRegOp, BranchCondition,
  LoadWidth, StoreWidth,
}
use redplanet.Instruction.Fields.{
  bits, rd, rs2, csr, shamt, amo_rl, amo_aq, i_imm, s_imm, b_imm, u_imm, j_imm, funct3,
}
use redplanet.Instruction.Decode.{fence_order}
use redplanet.Instruction.Immediates.{sign_extend, s_bits, b_bits, j_bits, immediates_of_formats}
use redplanet.Instruction.Encode.{
  r_type, i_type, s_type, b_type, u_type, j_type, reg_imm_f3, shift_f7, shift_f3, amo_f5,
  reg_reg_f7, reg_reg_f3, branch_f3, load_f3, store_f3, csr_f3, order_bits,
}
use redplanet.Instruction.Functs.{HasFields, r_type-HasFields}

pub reg_imm_f3-lt : (op : RegImmOp) → reg_imm_f3 op < 8
reg_imm_f3-lt RegImmOp.addi = omega arith
reg_imm_f3-lt _ = omega arith

pub shift-lt : (op : RegShiftImmOp) → (shift_f7 op < 128) × (shift_f3 op < 8)
shift-lt RegShiftImmOp.slli = omega arith
shift-lt _ = omega arith

pub amo_f5-lt : (op : AmoOp) → amo_f5 op < 32
amo_f5-lt AmoOp.lr = omega arith
amo_f5-lt _ = omega arith

pub reg_reg-lt : (op : RegRegOp) → (reg_reg_f7 op < 128) × (reg_reg_f3 op < 8)
reg_reg-lt RegRegOp.add = omega arith
reg_reg-lt _ = omega arith

pub branch_f3-lt : (op : BranchCondition) → branch_f3 op < 8
branch_f3-lt BranchCondition.beq = omega arith
branch_f3-lt _ = omega arith

pub load_f3-lt : (op : LoadWidth) → load_f3 op < 8
load_f3-lt LoadWidth.lb = omega arith
load_f3-lt _ = omega arith

pub store_f3-lt : (op : StoreWidth) → store_f3 op < 8
store_f3-lt StoreWidth.sb = omega arith
store_f3-lt _ = omega arith

pub csr_f3-lt : (op : CsrOp) → csr_f3 op < 4
csr_f3-lt CsrOp.read_write = omega arith
csr_f3-lt _ = omega arith

pub below_4096 : (n : ℕ) → n < 2 ^ 12 → n % 2 ^ 12 ≡ n
below_4096 n h = omega arith

pub extend : (w a b : ℕ) → a ≡ b → sign_extend w a ≡ sign_extend w b
extend w a b e = rw e

pub i_type-fields :
    (imm s1 f3 d code : ℕ)
    → s1 < 32
    → f3 < 8
    → d < 32
    → code < 128
    → HasFields (i_type imm s1 f3 d code) (imm / 2 ^ 5 % 2 ^ 7) (imm % 2 ^ 5) s1 f3 d code
      × (i_imm (i_type imm s1 f3 d code) ≡ sign_extend 12 (imm % 2 ^ 12))
      × (csr (i_type imm s1 f3 d code) ≡ imm % 2 ^ 12)
unfolding csr
i_type-fields imm s1 f3 d code h1 h2 h3 h4 =
    let f =
      r_type-HasFields (imm / 2 ^ 5 % 2 ^ 7) (imm % 2 ^ 5) s1 f3 d code (omega arith) (omega arith)
        h1 h2 h3 h4 in
    (
      f,
      (immediates_of_formats (i_type imm s1 f3 d code) f.word).0
          ∙ extend 12 (bits (i_type imm s1 f3 d code) 20 12) (imm % 2 ^ 12) (omega arith),
      omega arith,
    )

pub s_type-fields :
    (imm s2 s1 f3 code : ℕ)
    → s2 < 32
    → s1 < 32
    → f3 < 8
    → code < 128
    → HasFields (s_type imm s2 s1 f3 code) (imm / 2 ^ 5 % 2 ^ 7) s2 s1 f3 (imm % 2 ^ 5) code
      × (s_imm (s_type imm s2 s1 f3 code) ≡ sign_extend 12 (imm % 2 ^ 12))
s_type-fields imm s2 s1 f3 code h1 h2 h3 h4 =
    let f =
      r_type-HasFields (imm / 2 ^ 5 % 2 ^ 7) s2 s1 f3 (imm % 2 ^ 5) code (omega arith) h1 h2 h3
        (omega arith) h4 in
    (
      f,
      (immediates_of_formats (s_type imm s2 s1 f3 code) f.word).1
          ∙ extend 12 (s_bits (s_type imm s2 s1 f3 code)) (imm % 2 ^ 12) (omega arith),
    )

pub b_type-fields :
    (imm s2 s1 f3 code : ℕ)
    → s2 < 32
    → s1 < 32
    → f3 < 8
    → code < 128
    → imm % 2 ≡ 0
    → HasFields
        (b_type imm s2 s1 f3 code)
        (imm / 2 ^ 12 % 2 * 2 ^ 6 + imm / 2 ^ 5 % 2 ^ 6)
        s2
        s1
        f3
        (imm / 2 % 2 ^ 4 * 2 + imm / 2 ^ 11 % 2)
        code
      × (b_imm (b_type imm s2 s1 f3 code) ≡ sign_extend 13 (imm % 2 ^ 13))
b_type-fields imm s2 s1 f3 code h1 h2 h3 h4 even =
    let f =
      r_type-HasFields (imm / 2 ^ 12 % 2 * 2 ^ 6 + imm / 2 ^ 5 % 2 ^ 6) s2 s1 f3
        (imm / 2 % 2 ^ 4 * 2 + imm / 2 ^ 11 % 2) code (omega arith) h1 h2 h3 (omega arith) h4 in
    (
      f,
      (immediates_of_formats (b_type imm s2 s1 f3 code) f.word).2
          ∙ extend 13 (b_bits (b_type imm s2 s1 f3 code)) (imm % 2 ^ 13) (omega arith),
    )

pub u_type-fields :
    (imm d code : ℕ)
    → d < 32
    → code < 128
    → imm < 2 ^ 32
    → imm % 2 ^ 12 ≡ 0
    → (u_type imm d code % 2 ^ 7 ≡ code)
      × (rd (u_type imm d code) ≡ d)
      × (u_imm (u_type imm d code) ≡ imm)
unfolding rd
u_type-fields imm d code h1 h2 h3 low = (
  omega arith,
  omega arith,
  (immediates_of_formats (u_type imm d code) (omega arith)).4 ∙ omega arith,
)

pub j_type-fields :
    (imm d code : ℕ)
    → d < 32
    → code < 128
    → imm % 2 ≡ 0
    → (j_type imm d code % 2 ^ 7 ≡ code)
      × (rd (j_type imm d code) ≡ d)
      × (j_imm (j_type imm d code) ≡ sign_extend 21 (imm % 2 ^ 21))
unfolding rd
j_type-fields imm d code h1 h2 even = (
  omega arith,
  omega arith,
  (immediates_of_formats (j_type imm d code) (omega arith)).3
      ∙ extend 21 (j_bits (j_type imm d code)) (imm % 2 ^ 21) (omega arith),
)

pub flag : (b : Bool) (n : ℕ) → n ≡ from_bool b → (n == 1) ≡ b
flag true n e = rw e
flag false n e = rw e

pub from_bool-le : (b : Bool) → from_bool b ≤ 1
from_bool-le true = omega arith
from_bool-le false = omega arith

pub amo_flags :
    (f5 s2 s1 d : ℕ) (aq rl : Bool)
    → f5 < 32
    → s2 < 32
    → s1 < 32
    → d < 32
    → let raw = r_type (f5 * 4 + from_bool aq * 2 + from_bool rl) s2 s1 2 d 0x2F in
      (amo_aq raw ≡ aq) × (amo_rl raw ≡ rl)
unfolding amo_aq amo_rl
amo_flags f5 s2 s1 d aq rl h1 h2 h3 h4 = (
  flag aq _ (omega (arith, from_bool-le aq, from_bool-le rl)),
  flag rl _ (omega (arith, from_bool-le aq, from_bool-le rl)),
)

ruleset flags = (arith, from_bool-le)

pub order_of :
    (raw i o r w : ℕ) (p : FenceOrderCombination)
    → bits raw i 1 ≡ from_bool p.device_input
    → bits raw o 1 ≡ from_bool p.device_output
    → bits raw r 1 ≡ from_bool p.memory_reads
    → bits raw w 1 ≡ from_bool p.memory_writes
    → fence_order raw i o r w ≡ p
order_of raw i o r w p hi ho hr hw = λ k. record {
  device_input = flag p.device_input _ hi k;
  device_output = flag p.device_output _ ho k;
  memory_reads = flag p.memory_reads _ hr k;
  memory_writes = flag p.memory_writes _ hw k;
}

pub order_bits-lt : (p : FenceOrderCombination) → order_bits p < 16
order_bits-lt p = omega (
  arith,
  from_bool-le p.device_input,
  from_bool-le p.device_output,
  from_bool-le p.memory_reads,
  from_bool-le p.memory_writes,
)

-- The four flags of a set from the bits of its number.
pub nibble :
    (raw i o r w : ℕ) (p : FenceOrderCombination)
    → (bits raw i 1 ≡ order_bits p / 8 % 2)
    → (bits raw o 1 ≡ order_bits p / 4 % 2)
    → (bits raw r 1 ≡ order_bits p / 2 % 2)
    → (bits raw w 1 ≡ order_bits p % 2)
    → fence_order raw i o r w ≡ p
nibble raw i o r w p hi ho hr hw =
    order_of raw i o r w p (hi ∙ omega flags) (ho ∙ omega flags) (hr ∙ omega flags)
      (hw ∙ omega flags)

pub fence_flags :
    (p q : FenceOrderCombination)
    → let raw = (order_bits p * 16 + order_bits q) * 2 ^ 20 + 0x0F in
      (raw % 2 ^ 7 ≡ 0x0F)
      × (funct3 raw ≡ 0)
      × (fence_order raw 27 26 25 24 ≡ p)
      × (fence_order raw 23 22 21 20 ≡ q)
unfolding funct3
fence_flags p q =
    let hp = order_bits-lt p in
    let hq = order_bits-lt q in
    (
      omega arith,
      omega arith,
      nibble _ 27 26 25 24 p (omega arith) (omega arith) (omega arith) (omega arith),
      nibble _ 23 22 21 20 q (omega arith) (omega arith) (omega arith) (omega arith),
    )

pub shamt-rs2 : (raw : ℕ) → shamt raw ≡ rs2 raw
unfolding shamt rs2
shamt-rs2 raw = refl
