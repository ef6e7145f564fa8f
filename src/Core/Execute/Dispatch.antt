-- ===== src/Core/Execute/Dispatch.antt =====
-- The choice of the implementation of an instruction, `Core::execute_instruction` of
-- red-planet-core/src/core/mod.rs.
use redplanet.Base.{ℕ, some, none}
use redplanet.Registers.{Specifier}
use redplanet.Instruction.Types.{
  RegImmOp, RegShiftImmOp, AmoOp, RegRegOp, BranchCondition, LoadWidth, StoreWidth, CsrOp,
  CsrSpecifier, Instruction,
}
use redplanet.Instruction.Decode.{Decoded, ok, err, decode}
use redplanet.Core.Machine.{Exception, Core, Machine, Outcome, done, raised, panicked}
use redplanet.Core.Execute.Arithmetic.{
  addi, slti, sltiu, andi, ori, xori, slli, srli, srai, lui, auipc, add, sub, slt, sltu, and, or,
  xor, sll, srl, sra, mul, mulh, mulhsu, mulhu, div, divu, rem, remu, jal, jalr, beq, bne, blt,
  bltu, bge, bgeu,
}
use redplanet.Core.Execute.Memory.{
  lb, lbu, lh, lhu, lw, sb, sh, sw, lr, sc, amoswap, amoadd, amoand, amoor, amoxor, amomax, amomin,
  amomaxu, amominu,
}
use redplanet.Core.Execute.System.{
  fence, ecall, ebreak, sret, mret, wfi, sfence_vma, csrrw, csrrs, csrrc, csrrwi, csrrsi, csrrci,
}

unfoldable pub execute_reg_imm :
    {W : Type 0} → RegImmOp → (dest src : Specifier) (immediate : ℕ) → Core W → Outcome W
unfolding addi slti sltiu xori ori andi
execute_reg_imm RegImmOp.addi = addi
execute_reg_imm RegImmOp.slti = slti
execute_reg_imm RegImmOp.sltiu = sltiu
execute_reg_imm RegImmOp.xori = xori
execute_reg_imm RegImmOp.ori = ori
execute_reg_imm RegImmOp.andi = andi

unfoldable pub execute_shift :
    {W : Type 0} → RegShiftImmOp → (dest src : Specifier) (shift_amount_u5 : ℕ) → Core W → Outcome W
unfolding slli srli srai
execute_shift RegShiftImmOp.slli = slli
execute_shift RegShiftImmOp.srli = srli
execute_shift RegShiftImmOp.srai = srai

unfoldable pub execute_reg_reg :
    {W : Type 0} → RegRegOp → (dest src1 src2 : Specifier) → Core W → Outcome W
unfolding add slt sltu and or xor sll srl sub sra mul mulh mulhsu mulhu div divu rem remu
execute_reg_reg RegRegOp.add = add
execute_reg_reg RegRegOp.slt = slt
execute_reg_reg RegRegOp.sltu = sltu
execute_reg_reg RegRegOp.and = and
execute_reg_reg RegRegOp.or = or
execute_reg_reg RegRegOp.xor = xor
execute_reg_reg RegRegOp.sll = sll
execute_reg_reg RegRegOp.srl = srl
execute_reg_reg RegRegOp.sub = sub
execute_reg_reg RegRegOp.sra = sra
execute_reg_reg RegRegOp.mul = mul
execute_reg_reg RegRegOp.mulh = mulh
execute_reg_reg RegRegOp.mulhsu = mulhsu
execute_reg_reg RegRegOp.mulhu = mulhu
execute_reg_reg RegRegOp.div = div
execute_reg_reg RegRegOp.divu = divu
execute_reg_reg RegRegOp.rem = rem
execute_reg_reg RegRegOp.remu = remu

unfoldable pub execute_branch :
    {W : Type 0} → BranchCondition → (src1 src2 : Specifier) (offset : ℕ) → Core W → Outcome W
unfolding beq bne blt bltu bge bgeu
execute_branch BranchCondition.beq = beq
execute_branch BranchCondition.bne = bne
execute_branch BranchCondition.blt = blt
execute_branch BranchCondition.bltu = bltu
execute_branch BranchCondition.bge = bge
execute_branch BranchCondition.bgeu = bgeu

unfoldable pub execute_amo :
    {W : Type 0} → Machine W → AmoOp → (dest src addr : Specifier) → Core W → Outcome W
unfolding lr sc amoswap amoadd amoxor amoand amoor amomin amomax amominu amomaxu
execute_amo m AmoOp.lr = lr m
execute_amo m AmoOp.sc = sc m
execute_amo m AmoOp.swap = amoswap m
execute_amo m AmoOp.add = amoadd m
execute_amo m AmoOp.xor = amoxor m
execute_amo m AmoOp.and = amoand m
execute_amo m AmoOp.or = amoor m
execute_amo m AmoOp.min = amomin m
execute_amo m AmoOp.max = amomax m
execute_amo m AmoOp.minu = amominu m
execute_amo m AmoOp.maxu = amomaxu m

unfoldable pub execute_load :
    {W : Type 0} → Machine W → LoadWidth → (dest base : Specifier) (offset : ℕ) → Core W → Outcome W
unfolding lb lh lw lbu lhu
execute_load m LoadWidth.lb = lb m
execute_load m LoadWidth.lh = lh m
execute_load m LoadWidth.lw = lw m
execute_load m LoadWidth.lbu = lbu m
execute_load m LoadWidth.lhu = lhu m

unfoldable pub execute_store :
    {W : Type 0} → Machine W → StoreWidth → (src base : Specifier) (offset : ℕ) → Core W → Outcome W
unfolding sb sh sw
execute_store m StoreWidth.sb = sb m
execute_store m StoreWidth.sh = sh m
execute_store m StoreWidth.sw = sw m

unfoldable pub execute_csr :
    {W : Type 0}
    → Machine W
    → CsrOp
    → (dest : Specifier) (csr : CsrSpecifier) (src : Specifier) → Core W
    → Outcome W
unfolding csrrw csrrs csrrc
execute_csr m CsrOp.read_write = csrrw m
execute_csr m CsrOp.read_set = csrrs m
execute_csr m CsrOp.read_clear = csrrc m

unfoldable pub execute_csri :
    {W : Type 0}
    → Machine W
    → CsrOp
    → (dest : Specifier) (csr : CsrSpecifier) (immediate : ℕ) → Core W
    → Outcome W
unfolding csrrwi csrrsi csrrci
execute_csri m CsrOp.read_write = csrrwi m
execute_csri m CsrOp.read_set = csrrsi m
execute_csri m CsrOp.read_clear = csrrci m

unfoldable pub execute_instruction : {W : Type 0} → Machine W → Instruction → Core W → Outcome W
unfolding lui auipc jal jalr fence ecall ebreak sret mret wfi sfence_vma
execute_instruction m (Instruction.op_imm op dest src imm) = execute_reg_imm op dest src imm
execute_instruction m (Instruction.op_shift_imm op dest src shamt) = execute_shift op dest src shamt
execute_instruction m (Instruction.auipc dest imm) = auipc dest imm
execute_instruction m (Instruction.lui dest imm) = lui dest imm
execute_instruction m (Instruction.amo op aq rl src addr dest) = execute_amo m op dest src addr
execute_instruction m (Instruction.op op dest src1 src2) = execute_reg_reg op dest src1 src2
execute_instruction m (Instruction.jal dest offset) = jal dest offset
execute_instruction m (Instruction.jalr dest base offset) = jalr dest base offset
execute_instruction m (Instruction.branch condition src1 src2 offset) =
    execute_branch condition src1 src2 offset
execute_instruction m (Instruction.load width dest base offset) =
    execute_load m width dest base offset
execute_instruction m (Instruction.store width src base offset) =
    execute_store m width src base offset
execute_instruction m (Instruction.fence predecessor successor) = fence predecessor successor
execute_instruction m Instruction.ecall = ecall
execute_instruction m Instruction.ebreak = ebreak
execute_instruction m Instruction.sret = sret
execute_instruction m Instruction.mret = mret
execute_instruction m Instruction.wfi = wfi
execute_instruction m (Instruction.sfence_vma vaddr asid) = sfence_vma vaddr asid
execute_instruction m (Instruction.csr op dest csr src) = execute_csr m op dest csr src
execute_instruction m (Instruction.csri op dest csr imm) = execute_csri m op dest csr imm

-- The raw instruction goes into an illegal instruction exception that has none.
abbrev pub with_raw : {W : Type 0} → ℕ → Outcome W → Outcome W
with_raw raw (done c) = done c
with_raw raw (raised (Exception.illegal_instruction none) c) =
    raised (Exception.illegal_instruction (some raw)) c
with_raw raw (raised e c) = raised e c
with_raw raw (panicked p) = panicked p

unfoldable pub execute_decoded : {W : Type 0} → Machine W → ℕ → Decoded → Core W → Outcome W
unfolding execute_instruction
execute_decoded m raw (ok i) c = with_raw raw (execute_instruction m i c)
execute_decoded m raw (err e) c = raised (Exception.illegal_instruction (some raw)) c

unfoldable pub execute_raw_instruction : {W : Type 0} → Machine W → ℕ → Core W → Outcome W
unfolding decode execute_decoded
execute_raw_instruction m raw c = execute_decoded m raw (decode raw) c
