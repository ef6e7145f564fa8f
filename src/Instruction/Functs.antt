-- ===== src/Instruction/Functs.antt =====
-- The decoder on a word whose fields are known: what each field's function returns.
use redplanet.Base.{ℕ, ◌*◌, ◌/◌, ◌%◌, ◌^◌, ◌<◌, ◌≡◌, arith, some, none}
use redplanet.Instruction.Types.{
  Opcode, RegImmOp, RegShiftImmOp, AmoOp, RegRegOp, BranchCondition, LoadWidth, StoreWidth,
}
use redplanet.Instruction.Fields.{
  opcode, rd, rs1, rs2, i_funct, i_shfunct, i_width, s_width, r_funct, b_funct, amo_op, funct3,
  funct7,
}
use redplanet.Instruction.Decode.{decode, decode_opcode}
use redplanet.Instruction.Encode.{
  r_type, reg_imm_f3, shift_f7, shift_f3, amo_f5, reg_reg_f7, reg_reg_f3, branch_f3, load_f3,
  store_f3,
}

-- Only the lowest seven bits choose the opcode.
opcode-mod : (raw : ℕ) → opcode raw ≡ opcode (raw % 2 ^ 7)
unfolding opcode
opcode-mod raw = rw (mod-mod raw)
  where
    mod-mod : (n : ℕ) → n % 2 ^ 7 % 2 ^ 7 ≡ n % 2 ^ 7
    mod-mod n = omega arith

-- The places of the R format give back what was put there.
pub record HasFields (raw f7 s2 s1 f3 d code : ℕ) : Type 0 where
  pub word : raw < 2 ^ 32
  pub code_eq : raw % 2 ^ 7 ≡ code
  pub rd_eq : rd raw ≡ d
  pub f3_eq : funct3 raw ≡ f3
  pub rs1_eq : rs1 raw ≡ s1
  pub rs2_eq : rs2 raw ≡ s2
  pub f7_eq : funct7 raw ≡ f7

pub r_type-HasFields :
    (f7 s2 s1 f3 d code : ℕ)
    → f7 < 128
    → s2 < 32
    → s1 < 32
    → f3 < 8
    → d < 32
    → code < 128
    → HasFields (r_type f7 s2 s1 f3 d code) f7 s2 s1 f3 d code
unfolding rd rs1 rs2 funct3 funct7
r_type-HasFields f7 s2 s1 f3 d code h1 h2 h3 h4 h5 h6 = record {
  word = omega arith;
  code_eq = omega arith;
  rd_eq = omega arith;
  f3_eq = omega arith;
  rs1_eq = omega arith;
  rs2_eq = omega arith;
  f7_eq = omega arith;
}

pub decode_by_opcode :
    (raw code : ℕ) (o : Opcode)
    → raw % 2 ^ 7 ≡ code
    → opcode code ≡ some o
    → decode raw ≡ decode_opcode o raw
unfolding decode
decode_by_opcode raw code o e p = rw (opcode-mod raw, e, p, decode)

bit30 : (raw b : ℕ) → b < 2 → raw / 2 ^ 25 % 2 ^ 8 ≡ b * 32 → raw / 2 ^ 30 % 2 ^ 1 ≡ b
bit30 raw b small e = omega arith

pub i_funct_of : (raw : ℕ) (op : RegImmOp) → funct3 raw ≡ reg_imm_f3 op → i_funct raw ≡ some op
unfolding i_funct
i_funct_of raw RegImmOp.addi e = rw (e)
i_funct_of raw RegImmOp.slti e = rw (e)
i_funct_of raw RegImmOp.sltiu e = rw (e)
i_funct_of raw RegImmOp.xori e = rw (e)
i_funct_of raw RegImmOp.ori e = rw (e)
i_funct_of raw RegImmOp.andi e = rw (e)

pub r_funct_of :
    (raw : ℕ) (op : RegRegOp)
    → funct7 raw ≡ reg_reg_f7 op
    → funct3 raw ≡ reg_reg_f3 op
    → r_funct raw ≡ some op
unfolding r_funct
r_funct_of raw RegRegOp.add e p = rw (e, p)
r_funct_of raw RegRegOp.slt e p = rw (e, p)
r_funct_of raw RegRegOp.sltu e p = rw (e, p)
r_funct_of raw RegRegOp.and e p = rw (e, p)
r_funct_of raw RegRegOp.or e p = rw (e, p)
r_funct_of raw RegRegOp.xor e p = rw (e, p)
r_funct_of raw RegRegOp.sll e p = rw (e, p)
r_funct_of raw RegRegOp.srl e p = rw (e, p)
r_funct_of raw RegRegOp.sub e p = rw (e, p)
r_funct_of raw RegRegOp.sra e p = rw (e, p)
r_funct_of raw RegRegOp.mul e p = rw (e, p)
r_funct_of raw RegRegOp.mulh e p = rw (e, p)
r_funct_of raw RegRegOp.mulhsu e p = rw (e, p)
r_funct_of raw RegRegOp.mulhu e p = rw (e, p)
r_funct_of raw RegRegOp.div e p = rw (e, p)
r_funct_of raw RegRegOp.divu e p = rw (e, p)
r_funct_of raw RegRegOp.rem e p = rw (e, p)
r_funct_of raw RegRegOp.remu e p = rw (e, p)

pub b_funct_of :
    (raw : ℕ) (op : BranchCondition) → funct3 raw ≡ branch_f3 op → b_funct raw ≡ some op
unfolding b_funct
b_funct_of raw BranchCondition.beq e = rw (e)
b_funct_of raw BranchCondition.bne e = rw (e)
b_funct_of raw BranchCondition.blt e = rw (e)
b_funct_of raw BranchCondition.bge e = rw (e)
b_funct_of raw BranchCondition.bltu e = rw (e)
b_funct_of raw BranchCondition.bgeu e = rw (e)

pub i_width_of : (raw : ℕ) (op : LoadWidth) → funct3 raw ≡ load_f3 op → i_width raw ≡ some op
unfolding i_width
i_width_of raw LoadWidth.lb e = rw (e)
i_width_of raw LoadWidth.lh e = rw (e)
i_width_of raw LoadWidth.lw e = rw (e)
i_width_of raw LoadWidth.lbu e = rw (e)
i_width_of raw LoadWidth.lhu e = rw (e)

pub s_width_of : (raw : ℕ) (op : StoreWidth) → funct3 raw ≡ store_f3 op → s_width raw ≡ some op
unfolding s_width
s_width_of raw StoreWidth.sb e = rw (e)
s_width_of raw StoreWidth.sh e = rw (e)
s_width_of raw StoreWidth.sw e = rw (e)

pub amo_op_of :
    (raw : ℕ) (op : AmoOp) → funct7 raw / 2 ^ 2 ≡ amo_f5 op → funct3 raw ≡ 2 → amo_op raw ≡ some op
unfolding amo_op
amo_op_of raw AmoOp.lr e p = rw (e, p)
amo_op_of raw AmoOp.sc e p = rw (e, p)
amo_op_of raw AmoOp.swap e p = rw (e, p)
amo_op_of raw AmoOp.add e p = rw (e, p)
amo_op_of raw AmoOp.xor e p = rw (e, p)
amo_op_of raw AmoOp.and e p = rw (e, p)
amo_op_of raw AmoOp.or e p = rw (e, p)
amo_op_of raw AmoOp.min e p = rw (e, p)
amo_op_of raw AmoOp.max e p = rw (e, p)
amo_op_of raw AmoOp.minu e p = rw (e, p)
amo_op_of raw AmoOp.maxu e p = rw (e, p)

pub i_shfunct_of :
    (raw : ℕ) (op : RegShiftImmOp)
    → funct7 raw ≡ shift_f7 op
    → funct3 raw ≡ shift_f3 op
    → (i_funct raw ≡ none) × (i_shfunct raw ≡ some op)
unfolding i_funct i_shfunct funct7
i_shfunct_of raw RegShiftImmOp.slli e p = (rw p, rw (p, bit30 raw 0 (omega arith) e))
i_shfunct_of raw RegShiftImmOp.srli e p = (rw p, rw (p, bit30 raw 0 (omega arith) e))
i_shfunct_of raw RegShiftImmOp.srai e p = (rw p, rw (p, bit30 raw 1 (omega arith) e))
