-- ===== src/Core/Execute/Precise.antt =====
-- What an instruction that raises an exception has done to the registers.
use redplanet.Base.{
  ℕ, ◌≢◌, bit_or, bit_xor, min, max, refl, Bool, true, false, Option, none, some, ◌==◌,
  if◌then◌else◌, not, ltb, leb, lt_i32, bit_and, wrapping_add,
}
use redplanet.Registers.{Registers, x}
use redplanet.Privilege.{PrivilegeLevel, lower_than}
use redplanet.Instruction.Types.{
  RegImmOp, RegShiftImmOp, AmoOp, RegRegOp, BranchCondition, LoadWidth, StoreWidth,
}
use redplanet.Core.Status.{mpp, tsr}
use redplanet.Core.Machine.{
  Hart, Core, Access, Machine, Outcome, success, failure, crashed, misaligned_access, done, raised,
  panicked,
}
use redplanet.Core.Execute.{
  is_word_aligned, on_hart, reg_imm_op, reg_shamt_op, reg_reg_op, jump_op, cond_branch, load_op,
  after_load, store_op, after_store, amo_op, amo_read, amo_written, next,
}
use redplanet.Core.Execute.Arithmetic
use redplanet.Core.Execute.Memory
use redplanet.Core.Execute.System
use redplanet.Core.Execute.Dispatch

module _ {W : Type 0} (K : Registers → Type 0) where
  -- If the instruction raises an exception, `K` holds of the registers that it leaves.
  abbrev pub Kept : Outcome W → Type 0
  Kept (done c) = Unit
  Kept (raised e c) = K c.registers
  Kept (panicked p) = Unit

  pub if-Kept : (b : Bool) (o p : Outcome W) → Kept o → Kept p → Kept (if b then o else p)
  if-Kept true o p h k = h
  if-Kept false o p h k = k

  pub jump_op-Kept :
      (dest : ℕ) (target : Registers → ℕ) (c : Core W)
      → K c.registers
      → Kept (jump_op dest target c)
  unfolding jump_op
  jump_op-Kept dest target c h = if-Kept (not (is_word_aligned (target c.registers))) _ _ h tt

  cond_branch-Kept :
      (src1 src2 offset : ℕ) (p : ℕ → ℕ → Bool) (c : Core W)
      → K c.registers
      → Kept (cond_branch src1 src2 offset p c)
  unfolding cond_branch next
  cond_branch-Kept src1 src2 offset p c h =
      if-Kept (p (x c.registers src1) (x c.registers src2)) _ _
        (if-Kept (not (is_word_aligned (wrapping_add c.registers.pc offset))) _ _ h tt) tt

  -- The same of an access that fails.
  abbrev pub KeptAccess : {A : Type 0} → Access (Core W) A → Type 0
  KeptAccess (success v c) = K c.registers
  KeptAccess (failure e c) = K c.registers
  KeptAccess (crashed p) = Unit

  pub on_hart-Kept :
      {A : Type 0} (r : Registers) (a : Access (Hart W) A) → K r → KeptAccess (on_hart r a)
  on_hart-Kept r (success v h) k = k
  on_hart-Kept r (failure e h) k = k
  on_hart-Kept r (crashed p) k = tt

  map_access-Kept :
      {A B : Type 0} (f : A → B) (a : Access (Core W) A)
      → KeptAccess a
      → KeptAccess (Memory.map_access f a)
  map_access-Kept f (success v h) k = k
  map_access-Kept f (failure e h) k = k
  map_access-Kept f (crashed p) k = tt

  after_load-Kept :
      (dest address : ℕ) (a : Access (Core W) ℕ) → KeptAccess a → Kept (after_load dest address a)
  unfolding after_load next
  after_load-Kept dest address (success v c) k = tt
  after_load-Kept dest address (failure e c) k = k
  after_load-Kept dest address (crashed p) k = tt

  pub after_store-Kept :
      (address : ℕ) (a : Access (Core W) (Unit {0})) → KeptAccess a → Kept (after_store address a)
  unfolding after_store next
  after_store-Kept address (success v c) k = tt
  after_store-Kept address (failure e c) k = k
  after_store-Kept address (crashed p) k = tt

  pub reg_imm-Kept :
      (op : RegImmOp) (dest src imm : ℕ) (c : Core W)
      → Kept (Dispatch.execute_reg_imm op dest src imm c)
  unfolding Dispatch.execute_reg_imm next reg_imm_op Arithmetic.addi Arithmetic.slti
      Arithmetic.sltiu Arithmetic.xori Arithmetic.ori Arithmetic.andi
  reg_imm-Kept RegImmOp.addi dest src imm c = tt
  reg_imm-Kept _ dest src imm c = tt

  pub shift-Kept :
      (op : RegShiftImmOp) (dest src shamt : ℕ) (c : Core W)
      → Kept (Dispatch.execute_shift op dest src shamt c)
  unfolding Dispatch.execute_shift next reg_shamt_op Arithmetic.slli Arithmetic.srli Arithmetic.srai
  shift-Kept RegShiftImmOp.slli dest src shamt c = if-Kept (ltb 31 shamt) _ _ tt tt
  shift-Kept RegShiftImmOp.srli dest src shamt c = if-Kept (ltb 31 shamt) _ _ tt tt
  shift-Kept RegShiftImmOp.srai dest src shamt c = if-Kept (ltb 31 shamt) _ _ tt tt

  pub reg_reg-Kept :
      (op : RegRegOp) (dest src1 src2 : ℕ) (c : Core W)
      → Kept (Dispatch.execute_reg_reg op dest src1 src2 c)
  unfolding Dispatch.execute_reg_reg next reg_reg_op Arithmetic.add Arithmetic.sub Arithmetic.slt
      Arithmetic.sltu Arithmetic.and Arithmetic.or Arithmetic.xor Arithmetic.sll Arithmetic.srl
      Arithmetic.sra Arithmetic.mul Arithmetic.mulh Arithmetic.mulhsu Arithmetic.mulhu
      Arithmetic.div Arithmetic.divu Arithmetic.rem Arithmetic.remu
  reg_reg-Kept RegRegOp.add dest src1 src2 c = tt
  reg_reg-Kept _ dest src1 src2 c = tt

  pub branch-Kept :
      (b : BranchCondition) (src1 src2 offset : ℕ) (c : Core W)
      → K c.registers
      → Kept (Dispatch.execute_branch b src1 src2 offset c)
  unfolding Dispatch.execute_branch Arithmetic.beq Arithmetic.bne Arithmetic.blt Arithmetic.bltu
      Arithmetic.bge Arithmetic.bgeu
  branch-Kept BranchCondition.beq src1 src2 offset c h = cond_branch-Kept src1 src2 offset ◌==◌ c h
  branch-Kept BranchCondition.bne src1 src2 offset c h =
      cond_branch-Kept src1 src2 offset (λ a b. not (a == b)) c h
  branch-Kept BranchCondition.blt src1 src2 offset c h =
      cond_branch-Kept src1 src2 offset lt_i32 c h
  branch-Kept BranchCondition.bltu src1 src2 offset c h = cond_branch-Kept src1 src2 offset ltb c h
  branch-Kept BranchCondition.bge src1 src2 offset c h =
      cond_branch-Kept src1 src2 offset (λ a b. not (lt_i32 a b)) c h
  branch-Kept BranchCondition.bgeu src1 src2 offset c h =
      cond_branch-Kept src1 src2 offset (λ a b. leb b a) c h

  pub return-Kept : (c : Core W) → K c.registers → Kept (System.sret c) × Kept (System.mret c)
  unfolding System.sret System.mret System.return_to
  return-Kept c h = (
    if-Kept (lower_than c.hart.privilege_mode PrivilegeLevel.supervisor) _ _ h
        (if-Kept (tsr c.hart.status) _ _ h tt),
    if-Kept (lower_than c.hart.privilege_mode PrivilegeLevel.machine) _ _ h
        (mret_to-Kept (mpp c.hart.status)),
  )
    where
      mret_to-Kept : (o : Option PrivilegeLevel) → Kept (System.mret_to o c)
      mret_to-Kept none = tt
      mret_to-Kept (some pp) = tt

  module _ (m : Machine W) where
    pub load-Kept :
        (w : LoadWidth) (dest base offset : ℕ) (c : Core W)
        → K c.registers
        → Kept (Dispatch.execute_load m w dest base offset c)
    unfolding Dispatch.execute_load load_op Memory.lb Memory.lh Memory.lw Memory.lbu Memory.lhu
    load-Kept LoadWidth.lb dest base offset c h =
        after_load-Kept dest _ _
          (map_access-Kept Memory.extend_i8 _ (on_hart-Kept c.registers (m.read_byte _ c.hart) h))
    load-Kept LoadWidth.lh dest base offset c h = after_load-Kept dest _ _ (
        map_access-Kept Memory.extend_i16 _ (on_hart-Kept c.registers (m.read_halfword _ c.hart) h))
    load-Kept LoadWidth.lw dest base offset c h =
        after_load-Kept dest _ _ (on_hart-Kept c.registers (m.read_word _ c.hart) h)
    load-Kept LoadWidth.lbu dest base offset c h =
        after_load-Kept dest _ _ (on_hart-Kept c.registers (m.read_byte _ c.hart) h)
    load-Kept LoadWidth.lhu dest base offset c h =
        after_load-Kept dest _ _ (on_hart-Kept c.registers (m.read_halfword _ c.hart) h)

    pub store-Kept :
        (w : StoreWidth) (src base offset : ℕ) (c : Core W)
        → K c.registers
        → Kept (Dispatch.execute_store m w src base offset c)
    unfolding Dispatch.execute_store store_op Memory.sb Memory.sh Memory.sw
    store-Kept StoreWidth.sb src base offset c h =
        after_store-Kept _ _ (on_hart-Kept c.registers (m.write_byte _ _ c.hart) h)
    store-Kept StoreWidth.sh src base offset c h =
        after_store-Kept _ _ (on_hart-Kept c.registers (m.write_halfword _ _ c.hart) h)
    store-Kept StoreWidth.sw src base offset c h =
        after_store-Kept _ _ (on_hart-Kept c.registers (m.write_word _ _ c.hart) h)

    amo_written-Kept :
        (dest address v : ℕ) (a : Access (Core W) (Unit {0}))
        → KeptAccess a
        → Kept (amo_written m dest address v a)
    unfolding amo_written next
    amo_written-Kept dest address v (success _ c) k = tt
    amo_written-Kept dest address v (failure e c) k = k
    amo_written-Kept dest address v (crashed p) k = tt

    amo_read-Kept :
        (dest address v : ℕ) (op : ℕ → ℕ → ℕ) (a : Access (Core W) ℕ)
        → KeptAccess a
        → Kept (amo_read m dest address v op a)
    unfolding amo_read
    amo_read-Kept dest address v op (success w c) k =
        amo_written-Kept dest address w _
          (on_hart-Kept c.registers (m.write_word address (op w v) c.hart) k)
    amo_read-Kept dest address v op (failure e c) k = k
    amo_read-Kept dest address v op (crashed p) k = tt

    amo_op-Kept :
        (dest src addr : ℕ) (op : ℕ → ℕ → ℕ) (c : Core W)
        → K c.registers
        → Kept (amo_op m dest src addr op c)
    unfolding amo_op
    amo_op-Kept dest src addr op c h = if-Kept (not (is_word_aligned (x c.registers addr))) _ _ h (
        amo_read-Kept dest (x c.registers addr) (x c.registers src) op _
          (on_hart-Kept c.registers (m.read_word (x c.registers addr) c.hart) h))

    lr-Kept : (dest src addr : ℕ) (c : Core W) → K c.registers → Kept (Memory.lr m dest src addr c)
    unfolding Memory.lr load_op
    lr-Kept dest src addr c h =
        after_load-Kept dest (wrapping_add (x c.registers addr) 0) _
          (go (is_word_aligned (wrapping_add (x c.registers addr) 0)))
      where
        go :
            (b : Bool)
            → KeptAccess (
                if not b
                then failure misaligned_access c
                else Memory.reading m.read_word (wrapping_add (x c.registers addr) 0) c)
        go true = on_hart-Kept c.registers (m.read_word _ c.hart) h
        go false = h

    -- Every instruction of this kind but `sc`.
    pub amo-Kept :
        (op : AmoOp) (dest src addr : ℕ) (c : Core W)
        → op ≢ AmoOp.sc
        → K c.registers
        → Kept (Dispatch.execute_amo m op dest src addr c)
    unfolding Dispatch.execute_amo Memory.amoswap Memory.amoadd Memory.amoxor Memory.amoand
        Memory.amoor Memory.amomin Memory.amomax Memory.amominu Memory.amomaxu
    amo-Kept AmoOp.lr dest src addr c ne h = lr-Kept dest src addr c h
    amo-Kept AmoOp.sc dest src addr c ne h = absurd (ne refl)
    amo-Kept AmoOp.swap dest src addr c ne h = amo_op-Kept dest src addr (λ _ reg. reg) c h
    amo-Kept AmoOp.add dest src addr c ne h = amo_op-Kept dest src addr wrapping_add c h
    amo-Kept AmoOp.xor dest src addr c ne h = amo_op-Kept dest src addr bit_xor c h
    amo-Kept AmoOp.and dest src addr c ne h = amo_op-Kept dest src addr bit_and c h
    amo-Kept AmoOp.or dest src addr c ne h = amo_op-Kept dest src addr bit_or c h
    amo-Kept AmoOp.min dest src addr c ne h =
        amo_op-Kept dest src addr (λ mem reg. if lt_i32 reg mem then reg else mem) c h
    amo-Kept AmoOp.max dest src addr c ne h =
        amo_op-Kept dest src addr (λ mem reg. if lt_i32 mem reg then reg else mem) c h
    amo-Kept AmoOp.minu dest src addr c ne h = amo_op-Kept dest src addr min c h
    amo-Kept AmoOp.maxu dest src addr c ne h = amo_op-Kept dest src addr max c h
