-- ===== src/Core/Execute/System.antt =====
-- The environment, CSR and return instructions of red-planet-core/src/core/execute.rs.
use redplanet.Base.{ℕ, Bool, true, false, ◌&&◌, if◌then◌else◌, Option, none, some}
use redplanet.Registers.{Specifier, set_pc}
use redplanet.Privilege.{PrivilegeLevel, RawPrivilegeLevel, lower_than}
use redplanet.Instruction.Types.{CsrOp, CsrSpecifier, FenceOrderCombination}
use redplanet.Core.Status.{
  Status, mpie, spie, set_mie, set_mpie, set_sie, set_spie, set_mprv, spp, set_spp, mpp, set_mpp,
  tsr, tw, tvm,
}
use redplanet.Core.Machine.{of_core, Exception, Core, Machine, Outcome, done, raised, panicked}
use redplanet.Core.Execute.{increment_pc, next, csr_reg_op, csr_imm_op}

abbrev pub environment_call : PrivilegeLevel → Exception
environment_call PrivilegeLevel.user = Exception.environment_call_from_u_mode
environment_call PrivilegeLevel.supervisor = Exception.environment_call_from_s_mode
environment_call PrivilegeLevel.machine = Exception.environment_call_from_m_mode

abbrev pub is_machine : PrivilegeLevel → Bool
is_machine PrivilegeLevel.machine = true
is_machine PrivilegeLevel.user = false
is_machine PrivilegeLevel.supervisor = false

-- `if pp != Machine { status.set_mprv(false) }`
unfoldable pub leave_mprv : PrivilegeLevel → Status → Status
unfolding set_mprv
leave_mprv pp s = if is_machine pp then s else set_mprv false s

unfoldable pub sret_status : PrivilegeLevel → Status → Status
unfolding set_sie spie set_spie set_spp leave_mprv
sret_status pp s =
    leave_mprv pp (set_spp RawPrivilegeLevel.user (set_spie true (set_sie (spie s) s)))

unfoldable pub mret_status : PrivilegeLevel → Status → Status
unfolding set_mie mpie set_mpie set_mpp leave_mprv
mret_status pp s =
    leave_mprv pp (set_mpp RawPrivilegeLevel.user (set_mpie true (set_mie (mpie s) s)))

module _ {W : Type 0} where
  unfoldable pub fence : (predecessor successor : FenceOrderCombination) → Core W → Outcome W
  unfolding increment_pc
  fence predecessor successor c = next c.registers c

  unfoldable pub ecall : Core W → Outcome W
  ecall c = raised (environment_call c.hart.privilege_mode) c

  unfoldable pub ebreak : Core W → Outcome W
  ebreak c = raised Exception.breakpoint c

  abbrev pub illegal : Core W → Outcome W
  illegal c = raised (Exception.illegal_instruction none) c

  -- The end of a return: the new status and privilege mode, and `pc` from `epc`.
  unfoldable pub return_to : ℕ → PrivilegeLevel → Status → Core W → Outcome W
  unfolding set_pc
  return_to epc pp status c = done (record {
    registers = set_pc c.registers epc;
    hart = record c.hart { status = status; privilege_mode = pp };
  })

  unfoldable pub sret : Core W → Outcome W
  unfolding tsr spp sret_status return_to
  sret c =
      let s = c.hart.status in
      let pp = spp s in
      if lower_than c.hart.privilege_mode PrivilegeLevel.supervisor
      then illegal c
      else if tsr s
      then illegal c
      else return_to c.hart.sepc pp (sret_status pp s) c

  unfoldable pub mret_to : Option PrivilegeLevel → Core W → Outcome W
  unfolding mret_status return_to
  mret_to none c = panicked of_core
  mret_to (some pp) c = return_to c.hart.mepc pp (mret_status pp c.hart.status) c

  unfoldable pub mret : Core W → Outcome W
  unfolding mpp mret_to
  mret c =
      if lower_than c.hart.privilege_mode PrivilegeLevel.machine
      then illegal c
      else mret_to (mpp c.hart.status) c

  unfoldable pub wfi : Core W → Outcome W
  unfolding increment_pc tw
  wfi c =
      if lower_than c.hart.privilege_mode PrivilegeLevel.machine && tw c.hart.status
      then illegal c
      else next c.registers c

  unfoldable pub sfence_vma : (vaddr asid : Specifier) → Core W → Outcome W
  unfolding increment_pc tvm
  sfence_vma vaddr asid c = if tvm c.hart.status then illegal c else next c.registers c

module _ {W : Type 0} (m : Machine W) where
  unfoldable pub csrrw :
      (dest : Specifier) (csr : CsrSpecifier) (src : Specifier) → Core W → Outcome W
  unfolding csr_reg_op
  csrrw dest csr src c = csr_reg_op m CsrOp.read_write dest csr src c

  unfoldable pub csrrs :
      (dest : Specifier) (csr : CsrSpecifier) (src : Specifier) → Core W → Outcome W
  unfolding csr_reg_op
  csrrs dest csr src c = csr_reg_op m CsrOp.read_set dest csr src c

  unfoldable pub csrrc :
      (dest : Specifier) (csr : CsrSpecifier) (src : Specifier) → Core W → Outcome W
  unfolding csr_reg_op
  csrrc dest csr src c = csr_reg_op m CsrOp.read_clear dest csr src c

  unfoldable pub csrrwi :
      (dest : Specifier) (csr : CsrSpecifier) (immediate : ℕ) → Core W → Outcome W
  unfolding csr_imm_op
  csrrwi dest csr immediate c = csr_imm_op m CsrOp.read_write dest csr immediate c

  unfoldable pub csrrsi :
      (dest : Specifier) (csr : CsrSpecifier) (immediate : ℕ) → Core W → Outcome W
  unfolding csr_imm_op
  csrrsi dest csr immediate c = csr_imm_op m CsrOp.read_set dest csr immediate c

  unfoldable pub csrrci :
      (dest : Specifier) (csr : CsrSpecifier) (immediate : ℕ) → Core W → Outcome W
  unfolding csr_imm_op
  csrrci dest csr immediate c = csr_imm_op m CsrOp.read_clear dest csr immediate c
