-- ===== src/Core/Execute/Sound/Every.antt =====
-- The system instructions keep the invariant of the core, and so does every instruction.
use redplanet.Base.{
  ℕ, ◌^◌, ◌<◌, ◌≡◌, ◌≢◌, refl, arith, Bool, true, false, ◌&&◌, Option, none, some, if◌then◌else◌,
}
use redplanet.Registers.{set_pc}
use redplanet.Registers.Laws.{set_pc-IsValid}
use redplanet.Privilege.{PrivilegeLevel, RawPrivilegeLevel, lower_than}
use redplanet.Instruction.Types.{CsrOp, Instruction}
use redplanet.Core.Machine.{Core, Machine, Outcome, done, raised, panicked}
use redplanet.Core.Execute.Dispatch
use redplanet.Core.Execute.System
use redplanet.Core.Execute.Sound.{
  Contract, IsSoundCore, IsSoundOutcome, IsSoundMachine, IsWordException,
}
use redplanet.Core.Execute.Sound.Generic.{stay-IsSound}
use redplanet.Core.Execute.Sound.Accesses.{csr_reg_op-IsSound, csr_imm_op-IsSound}
use redplanet.Core.Execute.Sound.Instructions.{
  reg_imm-IsSound, shift-IsSound, upper-IsSound, jump-IsSound, branch-IsSound, reg_reg-IsSound,
}
use redplanet.Core.Status.Laws.{IsLegal}
use redplanet.Core.Execute.Sound.Stores.{load-IsSound, store-IsSound, amo-IsSound}
use redplanet.Instruction.Range.{IsInRange, decode-IsInRange}
use redplanet.Instruction.Decode.{Decoded, ok, err, decode}
use redplanet.Core.Status.{Status, mpie, spie, spp, mpp, tsr, tw, tvm}
use redplanet.Core.Status.Laws.{
  set_mie-IsLegal, set_sie-IsLegal, set_mpie-IsLegal, set_spie-IsLegal, set_mprv-IsLegal,
  set_spp-IsLegal, set_mpp-IsLegal, mpp-total,
}
use redplanet.Core.Execute.Sound.{IsCodeAddress}

leave_mprv-IsLegal :
    (pp : PrivilegeLevel) (s : Status) → IsLegal s → IsLegal (System.leave_mprv pp s)
unfolding System.leave_mprv
leave_mprv-IsLegal PrivilegeLevel.machine s h = h
leave_mprv-IsLegal PrivilegeLevel.user s h = set_mprv-IsLegal false s h
leave_mprv-IsLegal PrivilegeLevel.supervisor s h = set_mprv-IsLegal false s h

sret_status-IsLegal :
    (pp : PrivilegeLevel) (s : Status) → IsLegal s → IsLegal (System.sret_status pp s)
unfolding System.sret_status
sret_status-IsLegal pp s h = leave_mprv-IsLegal pp _ (
    set_spp-IsLegal RawPrivilegeLevel.user _
      (set_spie-IsLegal true _ (set_sie-IsLegal (spie s) s h)))

mret_status-IsLegal :
    (pp : PrivilegeLevel) (s : Status) → IsLegal s → IsLegal (System.mret_status pp s)
unfolding System.mret_status
mret_status-IsLegal pp s h = leave_mprv-IsLegal pp _ (
    set_mpp-IsLegal RawPrivilegeLevel.user _
      (set_mpie-IsLegal true _ (set_mie-IsLegal (mpie s) s h)))

ecall-IsWord : (level : PrivilegeLevel) → IsWordException (System.environment_call level)
ecall-IsWord PrivilegeLevel.user = tt
ecall-IsWord PrivilegeLevel.supervisor = tt
ecall-IsWord PrivilegeLevel.machine = tt

if-IsSound :
    {W : Type 0} (R : Contract W) (b : Bool) (o p : Outcome W)
    → IsSoundOutcome R o
    → IsSoundOutcome R p
    → IsSoundOutcome R (if b then o else p)
if-IsSound R true o p h k = h
if-IsSound R false o p h k = k

module _ {W : Type 0} {R : Contract W} where
  return_to-IsSound :
      (epc : ℕ) (pp : PrivilegeLevel) (status : Status) (c : Core W)
      → IsSoundCore R c
      → IsCodeAddress epc
      → IsLegal status
      → IsSoundOutcome R (System.return_to epc pp status c)
  unfolding System.return_to set_pc
  return_to-IsSound epc pp status c s a h = record {
    valid = set_pc-IsValid c.registers epc s.valid;
    pc = a;
    hart = record { legal = h; sepc = s.hart.sepc; mepc = s.hart.mepc; rest = s.hart.rest };
  }

  sret-IsSound : (c : Core W) → IsSoundCore R c → IsSoundOutcome R (System.sret c)
  unfolding System.sret
  sret-IsSound c s =
      if-IsSound R (lower_than c.hart.privilege_mode PrivilegeLevel.supervisor) _ _ (tt, s)
        (if-IsSound R (tsr c.hart.status) _ _ (tt, s)
          (return_to-IsSound c.hart.sepc (spp c.hart.status) _ c s s.hart.sepc
            (sret_status-IsLegal (spp c.hart.status) c.hart.status s.hart.legal)))

  mret_to-IsSound :
      (o : Option PrivilegeLevel) (c : Core W)
      → IsSoundCore R c
      → o ≢ none
      → IsSoundOutcome R (System.mret_to o c)
  unfolding System.mret_to
  mret_to-IsSound none c s h = absurd (h refl)
  mret_to-IsSound (some pp) c s h =
      return_to-IsSound c.hart.mepc pp _ c s s.hart.mepc
        (mret_status-IsLegal pp c.hart.status s.hart.legal)

  mret-IsSound : (c : Core W) → IsSoundCore R c → IsSoundOutcome R (System.mret c)
  unfolding System.mret
  mret-IsSound c s =
      if-IsSound R (lower_than c.hart.privilege_mode PrivilegeLevel.machine) _ _ (tt, s)
        (mret_to-IsSound (mpp c.hart.status) c s (mpp-total c.hart.status s.hart.legal))

  module _ (m : Machine W) (sound : IsSoundMachine R m) where
    csr-IsSound :
        (op : CsrOp) (dest csr src imm : ℕ) (c : Core W)
        → IsSoundCore R c
        → dest < 32
        → imm < 32
        → IsSoundOutcome R (Dispatch.execute_csr m op dest csr src c)
          × IsSoundOutcome R (Dispatch.execute_csri m op dest csr imm c)
    unfolding Dispatch.execute_csr Dispatch.execute_csri System.csrrw System.csrrs System.csrrc
        System.csrrwi System.csrrsi System.csrrci
    csr-IsSound CsrOp.read_write dest csr src imm c s h k = (
      csr_reg_op-IsSound m sound CsrOp.read_write dest csr src c s h,
      csr_imm_op-IsSound m sound CsrOp.read_write dest csr imm c s h (omega arith),
    )
    csr-IsSound CsrOp.read_set dest csr src imm c s h k = (
      csr_reg_op-IsSound m sound CsrOp.read_set dest csr src c s h,
      csr_imm_op-IsSound m sound CsrOp.read_set dest csr imm c s h (omega arith),
    )
    csr-IsSound CsrOp.read_clear dest csr src imm c s h k = (
      csr_reg_op-IsSound m sound CsrOp.read_clear dest csr src c s h,
      csr_imm_op-IsSound m sound CsrOp.read_clear dest csr imm c s h (omega arith),
    )

    -- Over a memory management unit and CSRs that keep the invariant, every instruction with
    -- operands in range runs from a sound core to a sound core, whether it completes or raises an
    -- exception, with no panic but those that their contract allows: the registers are 32 words with
    -- `x0` zero, and `pc` is a word address.
    pub execute_instruction-IsSound :
        (i : Instruction) (c : Core W)
        → IsSoundCore R c
        → IsInRange i
        → IsSoundOutcome R (Dispatch.execute_instruction m i c)
    unfolding Dispatch.execute_instruction System.fence System.ecall System.ebreak System.wfi
        System.sfence_vma
    execute_instruction-IsSound (Instruction.op_imm op dest src imm) c s (h, _, k) =
        reg_imm-IsSound op dest src imm c s h k
    execute_instruction-IsSound (Instruction.op_shift_imm op dest src shamt) c s (h, _, k) =
        shift-IsSound op dest src shamt c s h k
    execute_instruction-IsSound (Instruction.auipc dest imm) c s (h, k) =
        (upper-IsSound dest imm c s h k).1
    execute_instruction-IsSound (Instruction.lui dest imm) c s (h, k) =
        (upper-IsSound dest imm c s h k).0
    execute_instruction-IsSound (Instruction.amo op aq rl src addr dest) c s (_, _, h) =
        amo-IsSound m sound op dest src addr c s h
    execute_instruction-IsSound (Instruction.op op dest src1 src2) c s (h, _, _) =
        reg_reg-IsSound op dest src1 src2 c s h
    execute_instruction-IsSound (Instruction.jal dest offset) c s (h, _) =
        (jump-IsSound dest 0 offset c s h).0
    execute_instruction-IsSound (Instruction.jalr dest base offset) c s (h, _, _) =
        (jump-IsSound dest base offset c s h).1
    execute_instruction-IsSound (Instruction.branch condition src1 src2 offset) c s h =
        branch-IsSound condition src1 src2 offset c s
    execute_instruction-IsSound (Instruction.load width dest base offset) c s (h, _, _) =
        load-IsSound m sound width dest base offset c s h
    execute_instruction-IsSound (Instruction.store width src base offset) c s h =
        store-IsSound m sound width src base offset c s
    execute_instruction-IsSound (Instruction.fence predecessor successor) c s h = stay-IsSound c s
    execute_instruction-IsSound Instruction.ecall c s h = (ecall-IsWord c.hart.privilege_mode, s)
    execute_instruction-IsSound Instruction.ebreak c s h = (tt, s)
    execute_instruction-IsSound Instruction.sret c s h = sret-IsSound c s
    execute_instruction-IsSound Instruction.mret c s h = mret-IsSound c s
    execute_instruction-IsSound Instruction.wfi c s h =
        if-IsSound R (lower_than c.hart.privilege_mode PrivilegeLevel.machine && tw c.hart.status) _
          _ (tt, s) (stay-IsSound c s)
    execute_instruction-IsSound (Instruction.sfence_vma vaddr asid) c s h =
        if-IsSound R (tvm c.hart.status) _ _ (tt, s) (stay-IsSound c s)
    execute_instruction-IsSound (Instruction.csr op dest csr src) c s (h, _, _) =
        (csr-IsSound op dest csr src 0 c s h (omega arith)).0
    execute_instruction-IsSound (Instruction.csri op dest csr imm) c s (h, k, _) =
        (csr-IsSound op dest csr 0 imm c s h k).1

    with_raw-IsSound :
        (raw : ℕ) (o : Outcome W)
        → raw < 2 ^ 32
        → IsSoundOutcome R o
        → IsSoundOutcome R (Dispatch.with_raw raw o)
    with_raw-IsSound raw (done c) h s = s
    with_raw-IsSound raw (raised e c) h s = ground (arith, h, s)
    with_raw-IsSound raw (panicked p) h s = s

    decoded-IsSound :
        (raw : ℕ) (d : Decoded) (c : Core W)
        → raw < 2 ^ 32
        → IsSoundCore R c
        → ((i : Instruction) → d ≡ ok i → IsInRange i)
        → IsSoundOutcome R (Dispatch.execute_decoded m raw d c)
    unfolding Dispatch.execute_decoded
    decoded-IsSound raw (ok i) c w s h =
        with_raw-IsSound raw _ w (execute_instruction-IsSound i c s (h i refl))
    decoded-IsSound raw (err e) c w s h = (w, s)

    -- Over a memory management unit and CSRs that keep the invariant, every 32-bit word, decodable
    -- or not, runs from a sound core to a sound core, with no panic but those that their contract allows,
    -- and an exception that it raises carries a word.
    pub execute_raw_instruction-IsSound :
        (raw : ℕ) (c : Core W)
        → raw < 2 ^ 32
        → IsSoundCore R c
        → IsSoundOutcome R (Dispatch.execute_raw_instruction m raw c)
    unfolding Dispatch.execute_raw_instruction
    execute_raw_instruction-IsSound raw c h s =
        decoded-IsSound raw (decode raw) c h s (λ i e. decode-IsInRange raw i h e)
