-- ===== src/Core/Csr/Write.antt =====
-- `write_csr` of red-planet-core/src/core/mod.rs. `crashed` is the panic of `unreachable!()` and of the
-- assertions.
use redplanet.Base.{ℕ, Option, none, some, Bool, if◌then◌else◌}
use redplanet.Privilege.{PrivilegeLevel}
use redplanet.Instruction.Types.{CsrSpecifier}
use redplanet.Core.Machine.{
  of_core, Hart, Result, CsrAccessError, CsrWriteError, success, failure, crashed,
}
use redplanet.Core.State.{
  Rest, with_trap, with_counters, with_control, with_interrupts, with_envcfg, with_status,
}
use redplanet.Core.Status
use redplanet.Core.Status.Csr as StatusCsr
use redplanet.Core.Trap
use redplanet.Core.Interrupts
use redplanet.Core.Counters
use redplanet.Core.Envcfg
use redplanet.Core.Csr.Names.{Csr, name_of}
use redplanet.Core.Csr.{check_csr_access, is_read_only}

abbrev pub CsrWriteResult : Type 0 → Type 0
CsrWriteResult B = Result CsrWriteError (Hart (Rest B)) (Unit {0})

module _ {B : Type 0} where
  abbrev pub written : Hart (Rest B) → CsrWriteResult B
  written h = success tt h

  abbrev pub write_unsupported : CsrSpecifier → Hart (Rest B) → CsrWriteResult B
  write_unsupported specifier h =
      failure (CsrWriteError.access_error (CsrAccessError.csr_unsupported specifier)) h

  abbrev pub trap_or_crash : Hart (Rest B) → Option Trap.Trap → CsrWriteResult B
  trap_or_crash h none = crashed of_core
  trap_or_crash h (some t) = written (with_trap h t)

  abbrev pub counters_or_crash : Hart (Rest B) → Option Counters.Counters → CsrWriteResult B
  counters_or_crash h none = crashed of_core
  counters_or_crash h (some s) = written (with_counters h s)

  unfoldable pub write_satp : (value mask : ℕ) → Hart (Rest B) → CsrWriteResult B
  unfolding Status.tvm Trap.store_satp
  write_satp value mask h =
      if Status.tvm h.status
      then failure (CsrWriteError.access_error (CsrAccessError.csr_unavailable 0x180)) h
      else written (with_trap h (Trap.store_satp value mask h.rest.trap))

  -- The match of `write_csr`. senvcfg writes menvcfg.
  unfoldable pub write_named :
      CsrSpecifier → Csr → (value mask : ℕ) → Hart (Rest B) → CsrWriteResult B
  unfolding write_satp StatusCsr.write_sstatus StatusCsr.write_mstatus StatusCsr.write_mstatush
      Interrupts.write_sie Trap.write_stvec Counters.write_scounteren Envcfg.write_menvcfg
      Trap.write_sscratch Trap.write_epc Trap.write_scause Trap.write_stval Interrupts.write_sip
      Trap.write_medeleg Interrupts.write_mideleg Interrupts.write_mie Trap.write_mtvec
      Counters.write_mcounteren Trap.write_mscratch Trap.write_mcause Trap.write_mtval
      Interrupts.write_mip Trap.write_mtinst Trap.write_mtval2 Envcfg.write_menvcfgh
      Counters.write_mcycle Counters.write_minstret Counters.write_mcycleh Counters.write_minstreth
      Counters.write_mcountinhibit
  write_named s Csr.fflags value mask h = write_unsupported s h
  write_named s Csr.frm value mask h = write_unsupported s h
  write_named s Csr.fcsr value mask h = write_unsupported s h
  write_named s Csr.scontext value mask h = write_unsupported s h
  write_named s Csr.mseccfg value mask h = write_unsupported s h
  write_named s Csr.mseccfgh value mask h = write_unsupported s h
  write_named s Csr.tselect value mask h = write_unsupported s h
  write_named s Csr.tdata1 value mask h = write_unsupported s h
  write_named s Csr.tdata2 value mask h = write_unsupported s h
  write_named s Csr.tdata3 value mask h = write_unsupported s h
  write_named s Csr.mcontext value mask h = write_unsupported s h
  write_named s Csr.unnamed value mask h = write_unsupported s h
  write_named s (Csr.mhpmcounter n) value mask h =
      counters_or_crash h (Counters.write_mhpm n h.rest.counters)
  write_named s (Csr.mhpmcounterh n) value mask h =
      counters_or_crash h (Counters.write_mhpm n h.rest.counters)
  write_named s (Csr.mhpmevent n) value mask h =
      counters_or_crash h (Counters.write_mhpm n h.rest.counters)
  write_named s Csr.cycle value mask h = crashed of_core
  write_named s Csr.cycleh value mask h = crashed of_core
  write_named s Csr.time value mask h = crashed of_core
  write_named s Csr.timeh value mask h = crashed of_core
  write_named s Csr.instret value mask h = crashed of_core
  write_named s Csr.instreth value mask h = crashed of_core
  write_named s Csr.mvendorid value mask h = crashed of_core
  write_named s Csr.marchid value mask h = crashed of_core
  write_named s Csr.mimpid value mask h = crashed of_core
  write_named s Csr.mhartid value mask h = crashed of_core
  write_named s Csr.mconfigptr value mask h = crashed of_core
  write_named s (Csr.hpmcounter n) value mask h = crashed of_core
  write_named s (Csr.hpmcounterh n) value mask h = crashed of_core
  write_named s Csr.sstatus value mask h =
      written (with_status h (StatusCsr.write_sstatus value mask h.status))
  write_named s Csr.sie value mask h =
      written (with_interrupts h (Interrupts.write_sie value mask h.rest.interrupts))
  write_named s Csr.stvec value mask h = trap_or_crash h (Trap.write_stvec value mask h.rest.trap)
  write_named s Csr.scounteren value mask h =
      written (with_control h (Counters.write_scounteren value mask h.rest.counter_control))
  write_named s Csr.senvcfg value mask h =
      written (with_envcfg h (Envcfg.write_menvcfg value mask h.rest.envcfg))
  write_named s Csr.sscratch value mask h =
      written (with_trap h (Trap.write_sscratch value mask h.rest.trap))
  write_named s Csr.sepc value mask h =
      written (record h { sepc = Trap.write_epc h.sepc value mask })
  write_named s Csr.scause value mask h =
      written (with_trap h (Trap.write_scause value mask h.rest.trap))
  write_named s Csr.stval value mask h =
      written (with_trap h (Trap.write_stval value mask h.rest.trap))
  write_named s Csr.sip value mask h =
      written (with_interrupts h (Interrupts.write_sip value mask h.rest.interrupts))
  write_named s Csr.satp value mask h = write_satp value mask h
  write_named s Csr.mstatus value mask h =
      written (with_status h (StatusCsr.write_mstatus value mask h.status))
  write_named s Csr.misa value mask h = written h
  write_named s Csr.medeleg value mask h =
      written (with_trap h (Trap.write_medeleg value mask h.rest.trap))
  write_named s Csr.mideleg value mask h =
      written (with_interrupts h (Interrupts.write_mideleg value mask h.rest.interrupts))
  write_named s Csr.mie value mask h =
      written (with_interrupts h (Interrupts.write_mie value mask h.rest.interrupts))
  write_named s Csr.mtvec value mask h = trap_or_crash h (Trap.write_mtvec value mask h.rest.trap)
  write_named s Csr.mcounteren value mask h =
      written (with_control h (Counters.write_mcounteren value mask h.rest.counter_control))
  write_named s Csr.mstatush value mask h =
      written (with_status h (StatusCsr.write_mstatush value mask h.status))
  write_named s Csr.mscratch value mask h =
      written (with_trap h (Trap.write_mscratch value mask h.rest.trap))
  write_named s Csr.mepc value mask h =
      written (record h { mepc = Trap.write_epc h.mepc value mask })
  write_named s Csr.mcause value mask h =
      written (with_trap h (Trap.write_mcause value mask h.rest.trap))
  write_named s Csr.mtval value mask h =
      written (with_trap h (Trap.write_mtval value mask h.rest.trap))
  write_named s Csr.mip value mask h =
      written (with_interrupts h (Interrupts.write_mip value mask h.rest.interrupts))
  write_named s Csr.mtinst value mask h =
      written (with_trap h (Trap.write_mtinst value mask h.rest.trap))
  write_named s Csr.mtval2 value mask h =
      written (with_trap h (Trap.write_mtval2 value mask h.rest.trap))
  write_named s Csr.menvcfg value mask h =
      written (with_envcfg h (Envcfg.write_menvcfg value mask h.rest.envcfg))
  write_named s Csr.menvcfgh value mask h =
      written (with_envcfg h (Envcfg.write_menvcfgh value mask h.rest.envcfg))
  write_named s Csr.mcycle value mask h =
      written (with_counters h (Counters.write_mcycle value mask h.rest.counters))
  write_named s Csr.minstret value mask h =
      written (with_counters h (Counters.write_minstret value mask h.rest.counters))
  write_named s Csr.mcycleh value mask h =
      written (with_counters h (Counters.write_mcycleh value mask h.rest.counters))
  write_named s Csr.minstreth value mask h =
      written (with_counters h (Counters.write_minstreth value mask h.rest.counters))
  write_named s Csr.mcountinhibit value mask h =
      written (with_control h (Counters.write_mcountinhibit value mask h.rest.counter_control))

  abbrev pub unless_denied :
      Option CsrAccessError → Bool → Hart (Rest B) → CsrWriteResult B → CsrWriteResult B
  unless_denied none read_only h r =
      if read_only then failure CsrWriteError.write_to_read_only h else r
  unless_denied (some e) read_only h r = failure (CsrWriteError.access_error e) h

  unfoldable pub write_csr :
      CsrSpecifier → PrivilegeLevel → (value mask : ℕ) → Hart (Rest B) → CsrWriteResult B
  unfolding check_csr_access is_read_only write_named name_of
  write_csr specifier level value mask h =
      unless_denied (check_csr_access specifier level) (is_read_only specifier) h
        (write_named specifier (name_of specifier) value mask h)
