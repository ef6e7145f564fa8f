-- ===== src/Core/Execute/Exceptions.antt =====
-- Exceptions are precise: `pc` stays at the instruction that raises one, and so do the other
-- registers, except with `sc` and the CSR instructions.
use redplanet.Base.{
  ℕ, ◌⊎◌, sym, ◌∙◌, ◌≡◌, ◌≢◌, refl, inl, inr, Bool, true, false, ◌&&◌, ◌||◌, Option, none, some,
  ◌==◌, if◌then◌else◌, not, bit_and, wrapping_add, subst,
}
use redplanet.Registers.{Registers, Specifier, x, set_x}
use redplanet.Privilege.{PrivilegeLevel, lower_than}
use redplanet.Instruction.Types.{AmoOp, CsrOp, CsrSpecifier, Instruction}
use redplanet.Core.Status.{tw, tvm}
use redplanet.Core.Machine.{
  Exception, Hart, Core, Machine, CsrAccessError, CsrWriteError, Result, success, failure, crashed,
  misaligned_access, raised,
}
use redplanet.Core.Execute.{
  is_word_aligned, with_registers, store_op, csr_op, csr_loaded, csr_store, csr_written, csr_reg_op,
  csr_imm_op, is_read_write, next,
}
use redplanet.Core.Execute.Arithmetic
use redplanet.Core.Execute.Memory
use redplanet.Core.Execute.System
use redplanet.Core.Execute.Dispatch
use redplanet.Core.Execute.Sound.{set_x-pc}
use redplanet.Core.Execute.Precise.{
  Kept, KeptAccess, if-Kept, reg_imm-Kept, shift-Kept, reg_reg-Kept, branch-Kept, return-Kept,
  jump_op-Kept, load-Kept, store-Kept, amo-Kept, on_hart-Kept, after_store-Kept,
}

-- Every instruction but `sc` and the CSR instructions.
abbrev pub IsRestartable : Instruction → Type 0
IsRestartable (Instruction.amo op aq rl src addr dest) = op ≢ AmoOp.sc
IsRestartable (Instruction.csr op dest csr src) = ⊥
IsRestartable (Instruction.csri op dest csr imm) = ⊥
IsRestartable _ = Unit

sc_or_not : (op : AmoOp) → (op ≡ AmoOp.sc) ⊎ (op ≢ AmoOp.sc)
sc_or_not AmoOp.sc = inl refl
sc_or_not op = inr (λ e. cc e)

module _ {W : Type 0} (K : Registers → Type 0) (m : Machine W) where
  restartable-Kept :
      (i : Instruction) (c : Core W)
      → IsRestartable i
      → K c.registers
      → Kept K (Dispatch.execute_instruction m i c)
  unfolding Dispatch.execute_instruction next Arithmetic.lui Arithmetic.auipc Arithmetic.jal
      Arithmetic.jalr System.fence System.ecall System.ebreak System.wfi System.sfence_vma
  restartable-Kept (Instruction.op_imm op dest src imm) c r h = reg_imm-Kept K op dest src imm c
  restartable-Kept (Instruction.op_shift_imm op dest src shamt) c r h =
      shift-Kept K op dest src shamt c
  restartable-Kept (Instruction.auipc dest imm) c r h = tt
  restartable-Kept (Instruction.lui dest imm) c r h = tt
  restartable-Kept (Instruction.amo op aq rl src addr dest) c r h =
      amo-Kept K m op dest src addr c r h
  restartable-Kept (Instruction.op op dest src1 src2) c r h = reg_reg-Kept K op dest src1 src2 c
  restartable-Kept (Instruction.jal dest offset) c r h =
      jump_op-Kept K dest (λ r. wrapping_add r.pc offset) c h
  restartable-Kept (Instruction.jalr dest base offset) c r h =
      jump_op-Kept K dest (λ r. bit_and (wrapping_add (x r base) offset) 0xFFFF_FFFE) c h
  restartable-Kept (Instruction.branch condition src1 src2 offset) c r h =
      branch-Kept K condition src1 src2 offset c h
  restartable-Kept (Instruction.load width dest base offset) c r h =
      load-Kept K m width dest base offset c h
  restartable-Kept (Instruction.store width src base offset) c r h =
      store-Kept K m width src base offset c h
  restartable-Kept (Instruction.fence predecessor successor) c r h = tt
  restartable-Kept Instruction.ecall c r h = h
  restartable-Kept Instruction.ebreak c r h = h
  restartable-Kept Instruction.sret c r h = (return-Kept K c h).0
  restartable-Kept Instruction.mret c r h = (return-Kept K c h).1
  restartable-Kept Instruction.wfi c r h =
      if-Kept K (lower_than c.hart.privilege_mode PrivilegeLevel.machine && tw c.hart.status) _ _ h
        tt
  restartable-Kept (Instruction.sfence_vma vaddr asid) c r h =
      if-Kept K (tvm c.hart.status) _ _ h tt
  restartable-Kept (Instruction.csr op dest csr src) c r h = absurd r
  restartable-Kept (Instruction.csri op dest csr imm) c r h = absurd r

  module _ (keeps : (r : Registers) (s v : ℕ) → K r → K (set_x r s v)) where
    sc-Kept :
        (dest src addr : ℕ) (c : Core W) → K c.registers → Kept K (Memory.sc m dest src addr c)
    unfolding Memory.sc store_op
    sc-Kept dest src addr c h =
        after_store-Kept K (wrapping_add (x c.registers addr) 0) _
          (go (is_word_aligned (wrapping_add (x c.registers addr) 0)))
      where
        go :
            (b : Bool)
            → KeptAccess K (
                if not b
                then failure misaligned_access c
                else Memory.writing m.write_word
                    (wrapping_add (x c.registers addr) 0)
                    (x c.registers src)
                    (with_registers c (set_x c.registers dest 0)))
        go true =
            on_hart-Kept K (set_x c.registers dest 0) (m.write_word _ _ c.hart)
              (keeps c.registers dest 0 h)
        go false = h

    csr_written-Kept :
        (r : Registers) (o : Result CsrWriteError (Hart W) (Unit {0}))
        → K r
        → Kept K (csr_written m o r)
    unfolding csr_written
    csr_written-Kept r (success _ h) k = tt
    csr_written-Kept r (crashed p) k = tt
    csr_written-Kept r (failure e h) k = k

    csr_store-Kept :
        (op : CsrOp) (csr : CsrSpecifier) (o : Option ℕ) (level : PrivilegeLevel) (r : Registers)
        (h : Hart W)
        → K r
        → Kept K (csr_store m op csr o level r h)
    unfolding csr_store
    csr_store-Kept op csr none level r h k = tt
    csr_store-Kept op csr (some v) level r h k = csr_written-Kept r _ k

    csr_loaded-Kept :
        (op : CsrOp) (dest : Specifier) (csr : CsrSpecifier) (o : Option ℕ) (level : PrivilegeLevel)
        (r : Registers) (l : Result CsrAccessError (Hart W) ℕ)
        → K r
        → Kept K (csr_loaded m op dest csr o level r l)
    unfolding csr_loaded
    csr_loaded-Kept op dest csr o level r (failure e h) k = k
    csr_loaded-Kept op dest csr o level r (crashed p) k = tt
    csr_loaded-Kept op dest csr o level r (success old h) k =
        csr_store-Kept op csr o level (set_x r dest old) h (keeps r dest old k)

    csr_op-Kept :
        (op : CsrOp) (dest : Specifier) (csr : CsrSpecifier) (o : Option ℕ) (c : Core W)
        → K c.registers
        → Kept K (csr_op m op dest csr o c)
    unfolding csr_op
    csr_op-Kept op dest csr o c h =
        if-Kept K (not (is_read_write op) || not (dest == 0)) _ _
          (csr_loaded-Kept op dest csr o _ c.registers (m.read_csr csr c.hart.privilege_mode c.hart)
            h)
          (csr_store-Kept op csr o _ c.registers c.hart h)

    csr_reg_op-Kept :
        (op : CsrOp) (dest : Specifier) (csr : CsrSpecifier) (src : Specifier) (c : Core W)
        → K c.registers
        → Kept K (csr_reg_op m op dest csr src c)
    unfolding csr_reg_op
    csr_reg_op-Kept op dest csr src c h = csr_op-Kept op dest csr _ c h

    csr_imm_op-Kept :
        (op : CsrOp) (dest : Specifier) (csr : CsrSpecifier) (imm : ℕ) (c : Core W)
        → K c.registers
        → Kept K (csr_imm_op m op dest csr imm c)
    unfolding csr_imm_op
    csr_imm_op-Kept op dest csr imm c h = csr_op-Kept op dest csr _ c h

    csr-Kept :
        (op : CsrOp) (dest : Specifier) (csr : CsrSpecifier) (src imm : ℕ) (c : Core W)
        → K c.registers
        → Kept K (Dispatch.execute_csr m op dest csr src c)
          × Kept K (Dispatch.execute_csri m op dest csr imm c)
    unfolding Dispatch.execute_csr Dispatch.execute_csri System.csrrw System.csrrs System.csrrc
        System.csrrwi System.csrrsi System.csrrci
    csr-Kept CsrOp.read_write dest csr src imm c h = (
      csr_reg_op-Kept CsrOp.read_write dest csr src c h,
      csr_imm_op-Kept CsrOp.read_write dest csr imm c h,
    )
    csr-Kept CsrOp.read_set dest csr src imm c h = (
      csr_reg_op-Kept CsrOp.read_set dest csr src c h,
      csr_imm_op-Kept CsrOp.read_set dest csr imm c h,
    )
    csr-Kept CsrOp.read_clear dest csr src imm c h = (
      csr_reg_op-Kept CsrOp.read_clear dest csr src c h,
      csr_imm_op-Kept CsrOp.read_clear dest csr imm c h,
    )

    any_amo-Kept :
        (op : AmoOp) (dest src addr : ℕ) (c : Core W)
        → K c.registers
        → Kept K (Dispatch.execute_amo m op dest src addr c)
    unfolding Dispatch.execute_amo
    any_amo-Kept op dest src addr c h = elim (sc_or_not op) [
      | inl e ↦
          subst (λ o. Kept K (Dispatch.execute_amo m o dest src addr c)) (sym e)
            (sc-Kept dest src addr c h)
      | inr ne ↦ amo-Kept K m op dest src addr c ne h
    ]

    instruction-Kept :
        (i : Instruction) (c : Core W) → K c.registers → Kept K (Dispatch.execute_instruction m i c)
    unfolding Dispatch.execute_instruction
    instruction-Kept (Instruction.amo op aq rl src addr dest) c h =
        any_amo-Kept op dest src addr c h
    instruction-Kept (Instruction.csr op dest csr src) c h = (csr-Kept op dest csr src 0 c h).0
    instruction-Kept (Instruction.csri op dest csr imm) c h = (csr-Kept op dest csr 0 imm c h).1
    instruction-Kept i c h = restartable-Kept i c tt h

-- When an instruction raises an exception, `pc` is still the address of that instruction.
pub raised-pc :
    {W : Type 0} (m : Machine W) (i : Instruction) (c c' : Core W) (e : Exception)
    → Dispatch.execute_instruction m i c ≡ raised e c'
    → c'.registers.pc ≡ c.registers.pc
raised-pc m i c c' e h =
    let K : Registers → Type 0 = λ r. r.pc ≡ c.registers.pc in
    subst (Kept K) h (instruction-Kept K m (λ r s v k. set_x-pc r s v ∙ k) i c refl)

-- When an instruction other than `sc` and the CSR instructions raises an exception, the registers
-- are as it found them.
pub raised-registers :
    {W : Type 0} (m : Machine W) (i : Instruction) (c c' : Core W) (e : Exception)
    → IsRestartable i
    → Dispatch.execute_instruction m i c ≡ raised e c'
    → c'.registers ≡ c.registers
raised-registers m i c c' e r h =
    subst (Kept (λ t. t ≡ c.registers)) h (restartable-Kept (λ t. t ≡ c.registers) m i c r refl)
