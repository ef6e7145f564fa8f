-- ===== src/Core/Execute/Arithmetic.antt =====
-- The register, jump and branch instructions of red-planet-core/src/core/execute.rs.
use redplanet.Base.{
  ℕ, ◌%◌, ◌^◌, ◌==◌, not, ltb, leb, from_bool, bit_and, bit_or, bit_xor, wrapping_add, wrapping_sub,
  lt_i32, sra_i32, ◌<<<◌, ◌>>>◌,
}
use redplanet.Registers.{Specifier, x, set_x}
use redplanet.Core.Machine.{Core, Outcome}
use redplanet.Core.Muldiv.{
  mul_u32, mulh_i32, mulhsu_i32, mulhu_u32, div_i32, div_u32, rem_i32, rem_u32,
}
use redplanet.Core.Execute.{
  increment_pc, next, reg_imm_op, reg_shamt_op, reg_reg_op, jump_op, cond_branch,
}

module _ {W : Type 0} where
  unfoldable pub addi : (dest src : Specifier) (immediate : ℕ) → Core W → Outcome W
  unfolding reg_imm_op
  addi dest src immediate c = reg_imm_op dest src immediate (λ s imm. wrapping_add s imm) c

  unfoldable pub slti : (dest src : Specifier) (immediate : ℕ) → Core W → Outcome W
  unfolding reg_imm_op
  slti dest src immediate c = reg_imm_op dest src immediate (λ s imm. from_bool (lt_i32 s imm)) c

  unfoldable pub sltiu : (dest src : Specifier) (immediate : ℕ) → Core W → Outcome W
  unfolding reg_imm_op
  sltiu dest src immediate c = reg_imm_op dest src immediate (λ s imm. from_bool (ltb s imm)) c

  unfoldable pub andi : (dest src : Specifier) (immediate : ℕ) → Core W → Outcome W
  unfolding reg_imm_op
  andi dest src immediate c = reg_imm_op dest src immediate (λ s imm. bit_and s imm) c

  unfoldable pub ori : (dest src : Specifier) (immediate : ℕ) → Core W → Outcome W
  unfolding reg_imm_op
  ori dest src immediate c = reg_imm_op dest src immediate (λ s imm. bit_or s imm) c

  unfoldable pub xori : (dest src : Specifier) (immediate : ℕ) → Core W → Outcome W
  unfolding reg_imm_op
  xori dest src immediate c = reg_imm_op dest src immediate (λ s imm. bit_xor s imm) c

  unfoldable pub slli : (dest src : Specifier) (shift_amount_u5 : ℕ) → Core W → Outcome W
  unfolding reg_shamt_op
  slli dest src shift_amount_u5 c =
      reg_shamt_op dest src shift_amount_u5 (λ s shamt. (s <<< shamt) % 2 ^ 32) c

  unfoldable pub srli : (dest src : Specifier) (shift_amount_u5 : ℕ) → Core W → Outcome W
  unfolding reg_shamt_op
  srli dest src shift_amount_u5 c = reg_shamt_op dest src shift_amount_u5 (λ s shamt. s >>> shamt) c

  unfoldable pub srai : (dest src : Specifier) (shift_amount_u5 : ℕ) → Core W → Outcome W
  unfolding reg_shamt_op
  srai dest src shift_amount_u5 c =
      reg_shamt_op dest src shift_amount_u5 (λ s shamt. sra_i32 s shamt) c

  unfoldable pub lui : (dest : Specifier) (immediate : ℕ) → Core W → Outcome W
  unfolding increment_pc
  lui dest immediate c = next (set_x c.registers dest (bit_and immediate 0xFFFF_F000)) c

  unfoldable pub auipc : (dest : Specifier) (immediate : ℕ) → Core W → Outcome W
  unfolding increment_pc
  auipc dest immediate c =
      next (set_x c.registers dest (wrapping_add c.registers.pc (bit_and immediate 0xFFFF_F000))) c

  unfoldable pub add : (dest src1 src2 : Specifier) → Core W → Outcome W
  unfolding reg_reg_op
  add dest src1 src2 c = reg_reg_op dest src1 src2 (λ s1 s2. wrapping_add s1 s2) c

  unfoldable pub sub : (dest src1 src2 : Specifier) → Core W → Outcome W
  unfolding reg_reg_op
  sub dest src1 src2 c = reg_reg_op dest src1 src2 (λ s1 s2. wrapping_sub s1 s2) c

  unfoldable pub slt : (dest src1 src2 : Specifier) → Core W → Outcome W
  unfolding reg_reg_op
  slt dest src1 src2 c = reg_reg_op dest src1 src2 (λ s1 s2. from_bool (lt_i32 s1 s2)) c

  unfoldable pub sltu : (dest src1 src2 : Specifier) → Core W → Outcome W
  unfolding reg_reg_op
  sltu dest src1 src2 c = reg_reg_op dest src1 src2 (λ s1 s2. from_bool (ltb s1 s2)) c

  unfoldable pub and : (dest src1 src2 : Specifier) → Core W → Outcome W
  unfolding reg_reg_op
  and dest src1 src2 c = reg_reg_op dest src1 src2 (λ s1 s2. bit_and s1 s2) c

  unfoldable pub or : (dest src1 src2 : Specifier) → Core W → Outcome W
  unfolding reg_reg_op
  or dest src1 src2 c = reg_reg_op dest src1 src2 (λ s1 s2. bit_or s1 s2) c

  unfoldable pub xor : (dest src1 src2 : Specifier) → Core W → Outcome W
  unfolding reg_reg_op
  xor dest src1 src2 c = reg_reg_op dest src1 src2 (λ s1 s2. bit_xor s1 s2) c

  unfoldable pub sll : (dest src1 src2 : Specifier) → Core W → Outcome W
  unfolding reg_reg_op
  sll dest src1 src2 c = reg_reg_op dest src1 src2 (λ s1 s2. (s1 <<< bit_and s2 0x1F) % 2 ^ 32) c

  unfoldable pub srl : (dest src1 src2 : Specifier) → Core W → Outcome W
  unfolding reg_reg_op
  srl dest src1 src2 c = reg_reg_op dest src1 src2 (λ s1 s2. s1 >>> bit_and s2 0x1F) c

  unfoldable pub sra : (dest src1 src2 : Specifier) → Core W → Outcome W
  unfolding reg_reg_op
  sra dest src1 src2 c = reg_reg_op dest src1 src2 (λ s1 s2. sra_i32 s1 (bit_and s2 0x1F)) c

  unfoldable pub mul : (dest src1 src2 : Specifier) → Core W → Outcome W
  unfolding reg_reg_op
  mul dest src1 src2 c = reg_reg_op dest src1 src2 (λ s1 s2. mul_u32 s1 s2) c

  unfoldable pub mulh : (dest src1 src2 : Specifier) → Core W → Outcome W
  unfolding reg_reg_op
  mulh dest src1 src2 c = reg_reg_op dest src1 src2 (λ s1 s2. mulh_i32 s1 s2) c

  unfoldable pub mulhsu : (dest src1 src2 : Specifier) → Core W → Outcome W
  unfolding reg_reg_op
  mulhsu dest src1 src2 c = reg_reg_op dest src1 src2 (λ s1 s2. mulhsu_i32 s1 s2) c

  unfoldable pub mulhu : (dest src1 src2 : Specifier) → Core W → Outcome W
  unfolding reg_reg_op
  mulhu dest src1 src2 c = reg_reg_op dest src1 src2 (λ s1 s2. mulhu_u32 s1 s2) c

  unfoldable pub div : (dest src1 src2 : Specifier) → Core W → Outcome W
  unfolding reg_reg_op
  div dest src1 src2 c = reg_reg_op dest src1 src2 (λ s1 s2. div_i32 s1 s2) c

  unfoldable pub divu : (dest src1 src2 : Specifier) → Core W → Outcome W
  unfolding reg_reg_op
  divu dest src1 src2 c = reg_reg_op dest src1 src2 (λ s1 s2. div_u32 s1 s2) c

  unfoldable pub rem : (dest src1 src2 : Specifier) → Core W → Outcome W
  unfolding reg_reg_op
  rem dest src1 src2 c = reg_reg_op dest src1 src2 (λ s1 s2. rem_i32 s1 s2) c

  unfoldable pub remu : (dest src1 src2 : Specifier) → Core W → Outcome W
  unfolding reg_reg_op
  remu dest src1 src2 c = reg_reg_op dest src1 src2 (λ s1 s2. rem_u32 s1 s2) c

  unfoldable pub jal : (dest : Specifier) (offset : ℕ) → Core W → Outcome W
  unfolding jump_op
  jal dest offset c = jump_op dest (λ r. wrapping_add r.pc offset) c

  unfoldable pub jalr : (dest base : Specifier) (offset : ℕ) → Core W → Outcome W
  unfolding jump_op
  jalr dest base offset c =
      jump_op dest (λ r. bit_and (wrapping_add (x r base) offset) 0xFFFF_FFFE) c

  unfoldable pub beq : (src1 src2 : Specifier) (offset : ℕ) → Core W → Outcome W
  unfolding cond_branch
  beq src1 src2 offset c = cond_branch src1 src2 offset (λ s1 s2. s1 == s2) c

  unfoldable pub bne : (src1 src2 : Specifier) (offset : ℕ) → Core W → Outcome W
  unfolding cond_branch
  bne src1 src2 offset c = cond_branch src1 src2 offset (λ s1 s2. not (s1 == s2)) c

  unfoldable pub blt : (src1 src2 : Specifier) (offset : ℕ) → Core W → Outcome W
  unfolding cond_branch
  blt src1 src2 offset c = cond_branch src1 src2 offset (λ s1 s2. lt_i32 s1 s2) c

  unfoldable pub bltu : (src1 src2 : Specifier) (offset : ℕ) → Core W → Outcome W
  unfolding cond_branch
  bltu src1 src2 offset c = cond_branch src1 src2 offset (λ s1 s2. ltb s1 s2) c

  unfoldable pub bge : (src1 src2 : Specifier) (offset : ℕ) → Core W → Outcome W
  unfolding cond_branch
  bge src1 src2 offset c = cond_branch src1 src2 offset (λ s1 s2. not (lt_i32 s1 s2)) c

  unfoldable pub bgeu : (src1 src2 : Specifier) (offset : ℕ) → Core W → Outcome W
  unfolding cond_branch
  bgeu src1 src2 offset c = cond_branch src1 src2 offset (λ s1 s2. leb s2 s1) c
