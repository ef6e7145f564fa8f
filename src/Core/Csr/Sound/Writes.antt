-- ===== src/Core/Csr/Sound/Writes.antt =====
-- The writes of the CSRs keep the invariant of the core, and never panic.
use redplanet.Base.{
  ℕ, ◌^◌, ◌≤◌, ◌<◌, ◌≡◌, ◌≢◌, refl, arith, Bool, true, false, ltb, Option, none, some,
  if◌then◌else◌, Bool-cases, inl, inr,
}
use redplanet.Base.Masks.{masked-lt}
use redplanet.Privilege.{PrivilegeLevel}
use redplanet.Instruction.Types.{CsrSpecifier}
use redplanet.Core.Machine.{Hart, CsrAccessError, CsrWriteError, failure}
use redplanet.Core.Status
use redplanet.Core.Status.Laws.{write_mstatus-IsLegal}
use redplanet.Core.Trap
use redplanet.Core.Trap.Laws as TrapLaws
use redplanet.Core.Trap.Writes as TrapWrites
use redplanet.Core.Trap.Laws.{IsSoundTrap}
use redplanet.Core.Interrupts.Laws as InterruptsLaws
use redplanet.Core.Counters
use redplanet.Core.Counters.Laws as CountersLaws
use redplanet.Core.Envcfg
use redplanet.Core.State.{Rest, with_trap}
use redplanet.Core.Execute.Sound.{Contract, IsSoundHart, IsSoundCsrWrite}
use redplanet.Core.Sound.{CoreContract}
use redplanet.Core.Csr
use redplanet.Core.Csr.Names.{Csr, Fits, name_of, name_of-Fits}
use redplanet.Core.Csr.Write
use redplanet.Core.Csr.Sound.{
  hpm_in_range, with_trap-IsSound, with_counters-IsSound, with_control-IsSound,
  with_interrupts-IsSound, with_envcfg-IsSound, with_status-IsSound,
}

module _ {B : Type 0} (P : B → Type 0) where
  abbrev R : Contract (Rest B)
  R = CoreContract P

  abbrev IsSound : Hart (Rest B) → Type 0
  IsSound = IsSoundHart R

  module _ (h : Hart (Rest B)) (s : IsSound h) where
    counters_or_crash-IsSound :
        (n : ℕ)
        → 3 ≤ n
        → n ≤ 31
        → IsSoundCsrWrite R (Write.counters_or_crash h (Counters.write_mhpm n h.rest.counters))
    unfolding Counters.write_mhpm
    counters_or_crash-IsSound n a b = rw (hpm_in_range n a b) s

    trap_or_crash-IsSound :
        (o : Option Trap.Trap)
        → TrapLaws.IsSoundTrapOption o
        → IsSoundCsrWrite R (Write.trap_or_crash h o)
    trap_or_crash-IsSound none k = k
    trap_or_crash-IsSound (some t) k = with_trap-IsSound P h s t k

    write_satp-IsSound : (value mask : ℕ) → IsSoundCsrWrite R (Write.write_satp value mask h)
    unfolding Write.write_satp
    write_satp-IsSound value mask = go (Status.tvm h.status)
      where
        go :
            (c : Bool)
            → IsSoundCsrWrite R (
                if c
                then failure (CsrWriteError.access_error (CsrAccessError.csr_unavailable 0x180)) h
                else Write.written (with_trap h (Trap.store_satp value mask h.rest.trap)))
        go true = s
        go false =
            with_trap-IsSound P h s _
              (TrapWrites.store_satp-IsSound value mask h.rest.trap s.rest.trap)

  write_named-IsSound :
      (specifier : CsrSpecifier) (c : Csr) (value mask : ℕ) (h : Hart (Rest B))
      → value < 2 ^ 32
      → specifier < 0xC00
      → Fits specifier c
      → IsSound h
      → IsSoundCsrWrite R (Write.write_named specifier c value mask h)
  unfolding Write.write_named Envcfg.write_menvcfg Envcfg.write_menvcfgh
  write_named-IsSound spec Csr.fflags value mask h k low f s = s
  write_named-IsSound spec Csr.frm value mask h k low f s = s
  write_named-IsSound spec Csr.fcsr value mask h k low f s = s
  write_named-IsSound spec Csr.scontext value mask h k low f s = s
  write_named-IsSound spec Csr.mseccfg value mask h k low f s = s
  write_named-IsSound spec Csr.mseccfgh value mask h k low f s = s
  write_named-IsSound spec Csr.tselect value mask h k low f s = s
  write_named-IsSound spec Csr.tdata1 value mask h k low f s = s
  write_named-IsSound spec Csr.tdata2 value mask h k low f s = s
  write_named-IsSound spec Csr.tdata3 value mask h k low f s = s
  write_named-IsSound spec Csr.mcontext value mask h k low f s = s
  write_named-IsSound spec Csr.unnamed value mask h k low f s = s
  write_named-IsSound spec (Csr.mhpmcounter n) value mask h k low (a, b) s =
      counters_or_crash-IsSound h s n a b
  write_named-IsSound spec (Csr.mhpmcounterh n) value mask h k low (a, b) s =
      counters_or_crash-IsSound h s n a b
  write_named-IsSound spec (Csr.mhpmevent n) value mask h k low (a, b) s =
      counters_or_crash-IsSound h s n a b
  write_named-IsSound spec Csr.cycle value mask h k low f s = omega (arith, low, f)
  write_named-IsSound spec Csr.cycleh value mask h k low f s = omega (arith, low, f)
  write_named-IsSound spec Csr.time value mask h k low f s = omega (arith, low, f)
  write_named-IsSound spec Csr.timeh value mask h k low f s = omega (arith, low, f)
  write_named-IsSound spec Csr.instret value mask h k low f s = omega (arith, low, f)
  write_named-IsSound spec Csr.instreth value mask h k low f s = omega (arith, low, f)
  write_named-IsSound spec Csr.mvendorid value mask h k low f s = omega (arith, low, f)
  write_named-IsSound spec Csr.marchid value mask h k low f s = omega (arith, low, f)
  write_named-IsSound spec Csr.mimpid value mask h k low f s = omega (arith, low, f)
  write_named-IsSound spec Csr.mhartid value mask h k low f s = omega (arith, low, f)
  write_named-IsSound spec Csr.mconfigptr value mask h k low f s = omega (arith, low, f)
  write_named-IsSound spec (Csr.hpmcounter n) value mask h k low (a, _, _) s = omega (arith, low, a)
  write_named-IsSound spec (Csr.hpmcounterh n) value mask h k low (a, _, _) s =
      omega (arith, low, a)
  write_named-IsSound spec Csr.mstatus value mask h k low f s =
      with_status-IsSound P h s _ (write_mstatus-IsLegal value mask h.status s.legal).0
  write_named-IsSound spec Csr.sstatus value mask h k low f s =
      with_status-IsSound P h s _ (write_mstatus-IsLegal value mask h.status s.legal).1
  write_named-IsSound spec Csr.mstatush value mask h k low f s =
      with_status-IsSound P h s _ (write_mstatus-IsLegal value mask h.status s.legal).2
  write_named-IsSound spec Csr.sie value mask h k low f s =
      with_interrupts-IsSound P h s _
        (InterruptsLaws.write_sie-IsSound h.rest.interrupts s.rest.interrupts value mask)
  write_named-IsSound spec Csr.sip value mask h k low f s =
      with_interrupts-IsSound P h s _
        (InterruptsLaws.write_sip-IsSound h.rest.interrupts s.rest.interrupts value mask)
  write_named-IsSound spec Csr.mideleg value mask h k low f s =
      with_interrupts-IsSound P h s _
        (InterruptsLaws.write_mideleg-IsSound h.rest.interrupts s.rest.interrupts value mask)
  write_named-IsSound spec Csr.mie value mask h k low f s =
      with_interrupts-IsSound P h s _
        (InterruptsLaws.write_mie-IsSound h.rest.interrupts s.rest.interrupts value mask)
  write_named-IsSound spec Csr.mip value mask h k low f s =
      with_interrupts-IsSound P h s _
        (InterruptsLaws.write_mip-IsSound value mask h.rest.interrupts s.rest.interrupts)
  write_named-IsSound spec Csr.stvec value mask h k low f s =
      trap_or_crash-IsSound h s _
        (TrapLaws.write_stvec-IsSound value mask h.rest.trap s.rest.trap k)
  write_named-IsSound spec Csr.mtvec value mask h k low f s =
      trap_or_crash-IsSound h s _
        (TrapLaws.write_mtvec-IsSound value mask h.rest.trap s.rest.trap k)
  write_named-IsSound spec Csr.mcounteren value mask h k low f s =
      with_control-IsSound P h s _
        (CountersLaws.write_mcounteren-IsSound value mask k h.rest.counter_control s.rest.control)
  write_named-IsSound spec Csr.scounteren value mask h k low f s =
      with_control-IsSound P h s _
        (CountersLaws.write_scounteren-IsSound value mask k h.rest.counter_control s.rest.control)
  write_named-IsSound spec Csr.mcountinhibit value mask h k low f s =
      with_control-IsSound P h s _ (
        CountersLaws.write_mcountinhibit-IsSound value mask k h.rest.counter_control s.rest.control)
  write_named-IsSound spec Csr.mcycle value mask h k low f s =
      with_counters-IsSound P h s _
        (CountersLaws.write_mcycle-IsSound value mask k h.rest.counters s.rest.counters)
  write_named-IsSound spec Csr.mcycleh value mask h k low f s =
      with_counters-IsSound P h s _
        (CountersLaws.write_mcycleh-IsSound value mask k h.rest.counters s.rest.counters)
  write_named-IsSound spec Csr.minstret value mask h k low f s =
      with_counters-IsSound P h s _
        (CountersLaws.write_minstret-IsSound value mask k h.rest.counters s.rest.counters)
  write_named-IsSound spec Csr.minstreth value mask h k low f s =
      with_counters-IsSound P h s _
        (CountersLaws.write_minstreth-IsSound value mask k h.rest.counters s.rest.counters)
  write_named-IsSound spec Csr.senvcfg value mask h k low f s =
      with_envcfg-IsSound P h s _ (record {
        menvcfg = masked-lt h.rest.envcfg.menvcfg value mask s.rest.envcfg.menvcfg k;
        menvcfgh = s.rest.envcfg.menvcfgh;
        senvcfg = s.rest.envcfg.senvcfg;
      })
  write_named-IsSound spec Csr.menvcfg value mask h k low f s =
      with_envcfg-IsSound P h s _ (record {
        menvcfg = masked-lt h.rest.envcfg.menvcfg value mask s.rest.envcfg.menvcfg k;
        menvcfgh = s.rest.envcfg.menvcfgh;
        senvcfg = s.rest.envcfg.senvcfg;
      })
  write_named-IsSound spec Csr.menvcfgh value mask h k low f s =
      with_envcfg-IsSound P h s _ (record {
        menvcfg = s.rest.envcfg.menvcfg;
        menvcfgh = masked-lt h.rest.envcfg.menvcfgh value mask s.rest.envcfg.menvcfgh k;
        senvcfg = s.rest.envcfg.senvcfg;
      })
  write_named-IsSound spec Csr.mscratch value mask h k low f s =
      with_trap-IsSound P h s _
        (TrapWrites.write_mscratch-IsSound value mask h.rest.trap s.rest.trap k)
  write_named-IsSound spec Csr.sscratch value mask h k low f s =
      with_trap-IsSound P h s _
        (TrapWrites.write_sscratch-IsSound value mask h.rest.trap s.rest.trap k)
  write_named-IsSound spec Csr.mtval value mask h k low f s =
      with_trap-IsSound P h s _
        (TrapWrites.write_mtval-IsSound value mask h.rest.trap s.rest.trap k)
  write_named-IsSound spec Csr.mtval2 value mask h k low f s =
      with_trap-IsSound P h s _
        (TrapWrites.write_mtval2-IsSound value mask h.rest.trap s.rest.trap k)
  write_named-IsSound spec Csr.mtinst value mask h k low f s =
      with_trap-IsSound P h s _
        (TrapWrites.write_mtinst-IsSound value mask h.rest.trap s.rest.trap k)
  write_named-IsSound spec Csr.stval value mask h k low f s =
      with_trap-IsSound P h s _
        (TrapWrites.write_stval-IsSound value mask h.rest.trap s.rest.trap k)
  write_named-IsSound spec Csr.medeleg value mask h k low f s =
      with_trap-IsSound P h s _
        (TrapWrites.write_medeleg-IsSound value mask h.rest.trap s.rest.trap k)
  write_named-IsSound spec Csr.mcause value mask h k low f s =
      with_trap-IsSound P h s _ (TrapWrites.write_mcause-IsSound value mask h.rest.trap s.rest.trap)
  write_named-IsSound spec Csr.scause value mask h k low f s =
      with_trap-IsSound P h s _ (TrapWrites.write_scause-IsSound value mask h.rest.trap s.rest.trap)
  write_named-IsSound spec Csr.sepc value mask h k low f s = record {
    legal = s.legal;
    sepc = TrapLaws.write_epc-IsCodeAddress h.sepc value mask s.sepc k;
    mepc = s.mepc;
    rest = s.rest;
  }
  write_named-IsSound spec Csr.mepc value mask h k low f s = record {
    legal = s.legal;
    sepc = s.sepc;
    mepc = TrapLaws.write_epc-IsCodeAddress h.mepc value mask s.mepc k;
    rest = s.rest;
  }
  write_named-IsSound spec Csr.satp value mask h k low f s = write_satp-IsSound h s value mask
  write_named-IsSound spec Csr.misa value mask h k low f s = s

  below_read_only :
      (specifier : CsrSpecifier) (level : PrivilegeLevel)
      → Csr.is_read_only specifier ≡ false
      → Csr.check_csr_access specifier level ≡ none
      → specifier < 0xC00
  unfolding Csr.is_read_only Csr.check_csr_access Csr.is_valid
  below_read_only specifier level h k = elim (Bool-cases (ltb specifier (2 ^ 12))) [
    | inl small ↦ ground (arith, h, small)
    | inr large ↦ absurd (no_error (rw large at k))
  ]
    where
      no_error : some (CsrAccessError.csr_unsupported specifier) ≢ none
      no_error e = cc

  -- The writes of the CSRs keep the invariant and never panic.
  pub write_csr-IsSound :
      (specifier : CsrSpecifier) (level : PrivilegeLevel) (value mask : ℕ) (h : Hart (Rest B))
      → value < 2 ^ 32
      → IsSound h
      → IsSoundCsrWrite R (Write.write_csr specifier level value mask h)
  unfolding Write.write_csr
  write_csr-IsSound specifier level value mask h k s =
      go (Csr.check_csr_access specifier level) (Csr.is_read_only specifier)
        (below_read_only specifier level)
    where
      go :
          (o : Option CsrAccessError) (b : Bool)
          → (b ≡ false → o ≡ none → specifier < 0xC00)
          → IsSoundCsrWrite R (
              Write.unless_denied o b h
                (Write.write_named specifier (name_of specifier) value mask h))
      go (some e) b low = s
      go none true low = s
      go none false low =
          write_named-IsSound specifier (name_of specifier) value mask h k (low refl refl)
            (name_of-Fits specifier) s
