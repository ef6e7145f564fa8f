-- ===== src/Core/Execute/Sound/Instructions.antt =====
-- Every instruction keeps the invariant of the core.
use redplanet.Base.{
  ℕ, ◌%◌, ◌^◌, ◌<◌, ◌≤◌, arith, Bool, true, false, ◌==◌, not, ltb, leb, lt_i32, sra_i32, from_bool,
  bit_and, bit_or, bit_xor, wrapping_add, wrapping_sub, ◌<<<◌, ◌>>>◌,
}
use redplanet.Base.Bits.{bit_and_mask}
use redplanet.Base.Bounds.{sra_i32-lt, bit_and-lt, bit_or-lt, bit_xor-lt}
use native.Mathlib.Nat.{div-le_self}
use redplanet.Registers.{x}
use redplanet.Core.Muldiv.{
  mul_u32, mulh_i32, mulhsu_i32, mulhu_u32, div_i32, div_u32, rem_i32, rem_u32,
}
use redplanet.Core.Muldiv.Bounds.{
  mul_u32-lt, mulh_i32-lt, mulhsu_i32-lt, mulhu_u32-lt, div_i32-lt, rem_i32-lt, div_u32-lt,
  rem_u32-lt,
}
use redplanet.Instruction.Types.{RegImmOp, RegShiftImmOp, RegRegOp, BranchCondition}
use redplanet.Core.Machine.{Core}
use redplanet.Core.Execute.Dispatch
use redplanet.Core.Execute.Arithmetic
use redplanet.Core.Execute.Sound.{Contract, IsSoundCore, IsSoundOutcome, write-IsSound}
use redplanet.Core.Execute.Sound.Generic.{
  reg_imm_op-IsSound, reg_shamt_op-IsSound, reg_reg_op-IsSound, jump_op-IsSound,
  cond_branch-IsSound,
}

from_bool-lt : (b : Bool) → from_bool b < 2 ^ 32
from_bool-lt true = omega arith
from_bool-lt false = omega arith

shift_left-lt : (a k : ℕ) → (a <<< k) % 2 ^ 32 < 2 ^ 32
shift_left-lt a k = omega arith

shift_right-lt : (a k : ℕ) → a < 2 ^ 32 → a >>> k < 2 ^ 32
shift_right-lt a k h = omega (arith, div-le_self a (2 ^ k))

shamt-le : (b : ℕ) → bit_and b 0x1F ≤ 32
shamt-le b = omega (arith, bit_and_mask 5 b)

module _ {W : Type 0} {R : Contract W} where
  pub reg_imm-IsSound :
      (op : RegImmOp) (dest src imm : ℕ) (c : Core W)
      → IsSoundCore R c
      → dest < 32
      → imm < 2 ^ 32
      → IsSoundOutcome R (Dispatch.execute_reg_imm op dest src imm c)
  unfolding Dispatch.execute_reg_imm Arithmetic.addi Arithmetic.slti Arithmetic.sltiu
      Arithmetic.xori Arithmetic.ori Arithmetic.andi
  reg_imm-IsSound RegImmOp.addi dest src imm c s h k =
      reg_imm_op-IsSound dest src imm wrapping_add c s h (λ a ha. omega arith)
  reg_imm-IsSound RegImmOp.slti dest src imm c s h k =
      reg_imm_op-IsSound dest src imm (λ a i. from_bool (lt_i32 a i)) c s h
        (λ a ha. from_bool-lt (lt_i32 a imm))
  reg_imm-IsSound RegImmOp.sltiu dest src imm c s h k =
      reg_imm_op-IsSound dest src imm (λ a i. from_bool (ltb a i)) c s h
        (λ a ha. from_bool-lt (ltb a imm))
  reg_imm-IsSound RegImmOp.xori dest src imm c s h k =
      reg_imm_op-IsSound dest src imm bit_xor c s h (λ a ha. bit_xor-lt 32 a imm ha k)
  reg_imm-IsSound RegImmOp.ori dest src imm c s h k =
      reg_imm_op-IsSound dest src imm bit_or c s h (λ a ha. bit_or-lt 32 a imm ha k)
  reg_imm-IsSound RegImmOp.andi dest src imm c s h k =
      reg_imm_op-IsSound dest src imm bit_and c s h (λ a ha. bit_and-lt 32 a imm ha)

  pub shift-IsSound :
      (op : RegShiftImmOp) (dest src shamt : ℕ) (c : Core W)
      → IsSoundCore R c
      → dest < 32
      → shamt < 32
      → IsSoundOutcome R (Dispatch.execute_shift op dest src shamt c)
  unfolding Dispatch.execute_shift Arithmetic.slli Arithmetic.srli Arithmetic.srai
  shift-IsSound RegShiftImmOp.slli dest src shamt c s h k =
      reg_shamt_op-IsSound dest src shamt (λ a k. (a <<< k) % 2 ^ 32) c s h k
        (λ a ha. shift_left-lt a shamt)
  shift-IsSound RegShiftImmOp.srli dest src shamt c s h k =
      reg_shamt_op-IsSound dest src shamt ◌>>>◌ c s h k (λ a ha. shift_right-lt a shamt ha)
  shift-IsSound RegShiftImmOp.srai dest src shamt c s h k =
      reg_shamt_op-IsSound dest src shamt sra_i32 c s h k
        (λ a ha. sra_i32-lt a shamt ha (omega arith))

  pub upper-IsSound :
      (dest imm : ℕ) (c : Core W)
      → IsSoundCore R c
      → dest < 32
      → imm < 2 ^ 32
      → IsSoundOutcome R (Arithmetic.lui dest imm c)
        × IsSoundOutcome R (Arithmetic.auipc dest imm c)
  unfolding Arithmetic.lui Arithmetic.auipc
  upper-IsSound dest imm c s h k = (
    write-IsSound c dest _ s h (bit_and-lt 32 imm 0xFFFF_F000 k),
    write-IsSound c dest (wrapping_add c.registers.pc (bit_and imm 0xFFFF_F000)) s h (omega arith),
  )

  pub jump-IsSound :
      (dest base offset : ℕ) (c : Core W)
      → IsSoundCore R c
      → dest < 32
      → IsSoundOutcome R (Arithmetic.jal dest offset c)
        × IsSoundOutcome R (Arithmetic.jalr dest base offset c)
  unfolding Arithmetic.jal Arithmetic.jalr
  jump-IsSound dest base offset c s h = (
    jump_op-IsSound dest (λ r. wrapping_add r.pc offset) c s h (omega arith),
    jump_op-IsSound dest (λ r. bit_and (wrapping_add (x r base) offset) 0xFFFF_FFFE) c s h
        (bit_and-lt 32 (wrapping_add (x c.registers base) offset) 0xFFFF_FFFE (omega arith)),
  )

  pub branch-IsSound :
      (b : BranchCondition) (src1 src2 offset : ℕ) (c : Core W)
      → IsSoundCore R c
      → IsSoundOutcome R (Dispatch.execute_branch b src1 src2 offset c)
  unfolding Dispatch.execute_branch Arithmetic.beq Arithmetic.bne Arithmetic.blt Arithmetic.bltu
      Arithmetic.bge Arithmetic.bgeu
  branch-IsSound BranchCondition.beq src1 src2 offset c s =
      cond_branch-IsSound src1 src2 offset ◌==◌ c s
  branch-IsSound BranchCondition.bne src1 src2 offset c s =
      cond_branch-IsSound src1 src2 offset (λ a b. not (a == b)) c s
  branch-IsSound BranchCondition.blt src1 src2 offset c s =
      cond_branch-IsSound src1 src2 offset lt_i32 c s
  branch-IsSound BranchCondition.bltu src1 src2 offset c s =
      cond_branch-IsSound src1 src2 offset ltb c s
  branch-IsSound BranchCondition.bge src1 src2 offset c s =
      cond_branch-IsSound src1 src2 offset (λ a b. not (lt_i32 a b)) c s
  branch-IsSound BranchCondition.bgeu src1 src2 offset c s =
      cond_branch-IsSound src1 src2 offset (λ a b. leb b a) c s

  pub reg_reg-IsSound :
      (op : RegRegOp) (dest src1 src2 : ℕ) (c : Core W)
      → IsSoundCore R c
      → dest < 32
      → IsSoundOutcome R (Dispatch.execute_reg_reg op dest src1 src2 c)
  unfolding Dispatch.execute_reg_reg Arithmetic.add Arithmetic.sub Arithmetic.slt Arithmetic.sltu
      Arithmetic.and Arithmetic.or Arithmetic.xor Arithmetic.sll Arithmetic.srl Arithmetic.sra
      Arithmetic.mul Arithmetic.mulh Arithmetic.mulhsu Arithmetic.mulhu Arithmetic.div
      Arithmetic.divu Arithmetic.rem Arithmetic.remu
  reg_reg-IsSound RegRegOp.add dest src1 src2 c s h =
      reg_reg_op-IsSound dest src1 src2 wrapping_add c s h (λ a b ha hb. omega arith)
  reg_reg-IsSound RegRegOp.sub dest src1 src2 c s h =
      reg_reg_op-IsSound dest src1 src2 wrapping_sub c s h (λ a b ha hb. omega arith)
  reg_reg-IsSound RegRegOp.slt dest src1 src2 c s h =
      reg_reg_op-IsSound dest src1 src2 (λ a b. from_bool (lt_i32 a b)) c s h
        (λ a b ha hb. from_bool-lt (lt_i32 a b))
  reg_reg-IsSound RegRegOp.sltu dest src1 src2 c s h =
      reg_reg_op-IsSound dest src1 src2 (λ a b. from_bool (ltb a b)) c s h
        (λ a b ha hb. from_bool-lt (ltb a b))
  reg_reg-IsSound RegRegOp.and dest src1 src2 c s h =
      reg_reg_op-IsSound dest src1 src2 bit_and c s h (λ a b ha hb. bit_and-lt 32 a b ha)
  reg_reg-IsSound RegRegOp.or dest src1 src2 c s h =
      reg_reg_op-IsSound dest src1 src2 bit_or c s h (λ a b ha hb. bit_or-lt 32 a b ha hb)
  reg_reg-IsSound RegRegOp.xor dest src1 src2 c s h =
      reg_reg_op-IsSound dest src1 src2 bit_xor c s h (λ a b ha hb. bit_xor-lt 32 a b ha hb)
  reg_reg-IsSound RegRegOp.sll dest src1 src2 c s h =
      reg_reg_op-IsSound dest src1 src2 (λ a b. (a <<< bit_and b 0x1F) % 2 ^ 32) c s h
        (λ a b ha hb. shift_left-lt a (bit_and b 0x1F))
  reg_reg-IsSound RegRegOp.srl dest src1 src2 c s h =
      reg_reg_op-IsSound dest src1 src2 (λ a b. a >>> bit_and b 0x1F) c s h
        (λ a b ha hb. shift_right-lt a (bit_and b 0x1F) ha)
  reg_reg-IsSound RegRegOp.sra dest src1 src2 c s h =
      reg_reg_op-IsSound dest src1 src2 (λ a b. sra_i32 a (bit_and b 0x1F)) c s h
        (λ a b ha hb. sra_i32-lt a (bit_and b 0x1F) ha (shamt-le b))
  reg_reg-IsSound RegRegOp.mul dest src1 src2 c s h =
      reg_reg_op-IsSound dest src1 src2 mul_u32 c s h (λ a b ha hb. mul_u32-lt a b)
  reg_reg-IsSound RegRegOp.mulh dest src1 src2 c s h =
      reg_reg_op-IsSound dest src1 src2 mulh_i32 c s h (λ a b ha hb. mulh_i32-lt a b)
  reg_reg-IsSound RegRegOp.mulhsu dest src1 src2 c s h =
      reg_reg_op-IsSound dest src1 src2 mulhsu_i32 c s h (λ a b ha hb. mulhsu_i32-lt a b)
  reg_reg-IsSound RegRegOp.mulhu dest src1 src2 c s h =
      reg_reg_op-IsSound dest src1 src2 mulhu_u32 c s h (λ a b ha hb. mulhu_u32-lt a b)
  reg_reg-IsSound RegRegOp.div dest src1 src2 c s h =
      reg_reg_op-IsSound dest src1 src2 div_i32 c s h (λ a b ha hb. div_i32-lt a b ha)
  reg_reg-IsSound RegRegOp.divu dest src1 src2 c s h =
      reg_reg_op-IsSound dest src1 src2 div_u32 c s h (λ a b ha hb. div_u32-lt a b ha)
  reg_reg-IsSound RegRegOp.rem dest src1 src2 c s h =
      reg_reg_op-IsSound dest src1 src2 rem_i32 c s h (λ a b ha hb. rem_i32-lt a b ha)
  reg_reg-IsSound RegRegOp.remu dest src1 src2 c s h =
      reg_reg_op-IsSound dest src1 src2 rem_u32 c s h (λ a b ha hb. rem_u32-lt a b ha)
