-- ===== src/Core/Csr/Read.antt =====
-- `read_csr` of red-planet-core/src/core/mod.rs, with the counters that read the clock.
use redplanet.Base.{
  ℕ, ◌+◌, ◌-◌, ◌*◌, ◌^◌, Option, none, some, List, [], ◌∷◌, replicate, u32, ◌>>>◌, if◌then◌else◌,
  not,
}
use redplanet.Privilege.{PrivilegeLevel}
use redplanet.Instruction.Types.{CsrSpecifier}
use redplanet.Core.Machine.{of_core, Hart, Result, CsrAccessError, success, failure, crashed}
use redplanet.Core.State.{Rest, Config, SystemBus, settle}
use redplanet.Core.Status
use redplanet.Core.Status.Csr as StatusCsr
use redplanet.Core.Trap
use redplanet.Core.Interrupts
use redplanet.Core.Counters
use redplanet.Core.Csr.Names.{Csr, name_of}
use redplanet.Core.Csr.{check_csr_access}

-- `u64::from_le_bytes`, of any number of bytes.
unfoldable pub from_le_bytes : List ℕ → ℕ
from_le_bytes [] = 0
from_le_bytes (b ∷ rest) = b + from_le_bytes rest * 2 ^ 8

abbrev pub misa : ℕ
misa = 0x4014_1101

-- `CYCLE`, the address that the performance counters of both halves give in their errors.
abbrev pub hpm_specifier : (n : ℕ) → CsrSpecifier
hpm_specifier n = 0xC03 + n - 3

abbrev pub CsrReadResult : Type 0 → Type 0
CsrReadResult B = Result CsrAccessError (Hart (Rest B)) ℕ

module _ {B : Type 0} where
  abbrev pub read_ok : Hart (Rest B) → ℕ → CsrReadResult B
  read_ok h value = success value h

  abbrev pub or_crash : Hart (Rest B) → Option ℕ → CsrReadResult B
  or_crash h none = crashed of_core
  or_crash h (some value) = success value h

  abbrev pub unless_denied :
      Option CsrAccessError → Hart (Rest B) → CsrReadResult B → CsrReadResult B
  unless_denied none h r = r
  unless_denied (some e) h r = failure e h

  abbrev pub mapped : (ℕ → ℕ) → CsrReadResult B → CsrReadResult B
  mapped f (success value h) = success (f value) h
  mapped f (failure e h) = failure e h
  mapped f (crashed p) = crashed p

  -- `check_access(..)?` with the bit that the closure reads.
  abbrev pub counted :
      (bit_index : ℕ) → CsrSpecifier → Hart (Rest B) → CsrReadResult B → CsrReadResult B
  unfolding Counters.check_access
  counted bit_index specifier h r =
      unless_denied
        (Counters.check_access h.privilege_mode h.rest.counter_control bit_index specifier) h r

  -- `read_hpmcounter` and `read_hpmcounterh`
  unfoldable pub read_hpmcounter : (n : ℕ) → Hart (Rest B) → CsrReadResult B
  unfolding counted Counters.read_mhpm
  read_hpmcounter n h =
      if not (Counters.is_hpm_number n)
      then (crashed of_core)
      else counted n (hpm_specifier n) h (or_crash h (Counters.read_mhpm n))

  unfoldable pub read_satp : Hart (Rest B) → CsrReadResult B
  unfolding Status.tvm Trap.satp
  read_satp h =
      if Status.tvm h.status
      then failure (CsrAccessError.csr_unavailable 0x180) h
      else read_ok h (Trap.satp h.rest.trap)

  module _ (config : Config) (bus : SystemBus B) where
    unfoldable pub read_mtime : Hart (Rest B) → CsrReadResult B
    unfolding from_le_bytes
    read_mtime h = settle from_le_bytes h (bus.read (replicate 8 0) config.mtime_address h.rest.bus)

    unfoldable pub read_mtimecmp : Hart (Rest B) → CsrReadResult B
    unfolding from_le_bytes
    read_mtimecmp h =
        settle from_le_bytes h (bus.read (replicate 8 0) config.mtimecmp_address h.rest.bus)

    unfoldable pub read_time : Hart (Rest B) → CsrReadResult B
    unfolding counted read_mtime
    read_time h = counted 1 0xC01 h (mapped u32 (read_mtime h))

    unfoldable pub read_timeh : Hart (Rest B) → CsrReadResult B
    unfolding counted read_mtime
    read_timeh h = counted 1 0xC81 h (mapped (λ value. u32 (value >>> 32)) (read_mtime h))

    -- The match of `read_csr`. senvcfg reads menvcfg.
    unfoldable pub read_named : CsrSpecifier → Csr → Hart (Rest B) → CsrReadResult B
    unfolding counted read_time read_timeh read_hpmcounter read_satp Counters.read_mhpm
        StatusCsr.read_sstatus StatusCsr.read_mstatus StatusCsr.read_mstatush Interrupts.read_sie
        Interrupts.read_sip Trap.read_stvec Trap.read_mtvec Trap.read_scause Trap.read_mcause
    read_named s Csr.fflags h = failure (CsrAccessError.csr_unsupported s) h
    read_named s Csr.frm h = failure (CsrAccessError.csr_unsupported s) h
    read_named s Csr.fcsr h = failure (CsrAccessError.csr_unsupported s) h
    read_named s Csr.scontext h = failure (CsrAccessError.csr_unsupported s) h
    read_named s Csr.mseccfg h = failure (CsrAccessError.csr_unsupported s) h
    read_named s Csr.mseccfgh h = failure (CsrAccessError.csr_unsupported s) h
    read_named s Csr.tselect h = failure (CsrAccessError.csr_unsupported s) h
    read_named s Csr.tdata1 h = failure (CsrAccessError.csr_unsupported s) h
    read_named s Csr.tdata2 h = failure (CsrAccessError.csr_unsupported s) h
    read_named s Csr.tdata3 h = failure (CsrAccessError.csr_unsupported s) h
    read_named s Csr.mcontext h = failure (CsrAccessError.csr_unsupported s) h
    read_named s Csr.unnamed h = failure (CsrAccessError.csr_unsupported s) h
    read_named s Csr.cycle h = counted 0 0xC00 h (read_ok h h.rest.counters.mcycle)
    read_named s Csr.cycleh h = counted 0 0xC80 h (read_ok h h.rest.counters.mcycleh)
    read_named s Csr.time h = read_time h
    read_named s Csr.timeh h = read_timeh h
    read_named s Csr.instret h = counted 2 0xC02 h (read_ok h h.rest.counters.minstret)
    read_named s Csr.instreth h = counted 2 0xC82 h (read_ok h h.rest.counters.minstreth)
    read_named s (Csr.hpmcounter n) h = read_hpmcounter n h
    read_named s (Csr.hpmcounterh n) h = read_hpmcounter n h
    read_named s (Csr.mhpmcounter n) h = or_crash h (Counters.read_mhpm n)
    read_named s (Csr.mhpmcounterh n) h = or_crash h (Counters.read_mhpm n)
    read_named s (Csr.mhpmevent n) h = or_crash h (Counters.read_mhpm n)
    read_named s Csr.sstatus h = read_ok h (StatusCsr.read_sstatus h.status)
    read_named s Csr.sie h = read_ok h (Interrupts.read_sie h.rest.interrupts)
    read_named s Csr.stvec h = or_crash h (Trap.read_stvec h.rest.trap)
    read_named s Csr.scounteren h = read_ok h h.rest.counter_control.scounteren
    read_named s Csr.senvcfg h = read_ok h h.rest.envcfg.menvcfg
    read_named s Csr.sscratch h = read_ok h h.rest.trap.sscratch
    read_named s Csr.sepc h = read_ok h h.sepc
    read_named s Csr.scause h = read_ok h (Trap.read_scause h.rest.trap)
    read_named s Csr.stval h = read_ok h h.rest.trap.stval
    read_named s Csr.sip h = read_ok h (Interrupts.read_sip h.rest.interrupts)
    read_named s Csr.satp h = read_satp h
    read_named s Csr.mvendorid h = read_ok h 0
    read_named s Csr.marchid h = read_ok h 0
    read_named s Csr.mimpid h = read_ok h 0
    read_named s Csr.mconfigptr h = read_ok h 0
    read_named s Csr.mhartid h = read_ok h config.hart_id
    read_named s Csr.mstatus h = read_ok h (StatusCsr.read_mstatus h.status)
    read_named s Csr.misa h = read_ok h misa
    read_named s Csr.medeleg h = read_ok h h.rest.trap.delegate_exception
    read_named s Csr.mideleg h = read_ok h h.rest.interrupts.delegate
    read_named s Csr.mie h = read_ok h h.rest.interrupts.mie
    read_named s Csr.mtvec h = or_crash h (Trap.read_mtvec h.rest.trap)
    read_named s Csr.mcounteren h = read_ok h h.rest.counter_control.mcounteren
    read_named s Csr.mstatush h = read_ok h (StatusCsr.read_mstatush h.status)
    read_named s Csr.mscratch h = read_ok h h.rest.trap.mscratch
    read_named s Csr.mepc h = read_ok h h.mepc
    read_named s Csr.mcause h = read_ok h (Trap.read_mcause h.rest.trap)
    read_named s Csr.mtval h = read_ok h h.rest.trap.mtval
    read_named s Csr.mip h = read_ok h h.rest.interrupts.mip
    read_named s Csr.mtinst h = read_ok h h.rest.trap.mtinst
    read_named s Csr.mtval2 h = read_ok h h.rest.trap.mtval2
    read_named s Csr.menvcfg h = read_ok h h.rest.envcfg.menvcfg
    read_named s Csr.menvcfgh h = read_ok h h.rest.envcfg.menvcfgh
    read_named s Csr.mcycle h = read_ok h h.rest.counters.mcycle
    read_named s Csr.minstret h = read_ok h h.rest.counters.minstret
    read_named s Csr.mcycleh h = read_ok h h.rest.counters.mcycleh
    read_named s Csr.minstreth h = read_ok h h.rest.counters.minstreth
    read_named s Csr.mcountinhibit h = read_ok h h.rest.counter_control.mcountinhibit

    unfoldable pub read_csr : CsrSpecifier → PrivilegeLevel → Hart (Rest B) → CsrReadResult B
    unfolding check_csr_access read_named name_of
    read_csr specifier level h =
        unless_denied (check_csr_access specifier level) h
          (read_named specifier (name_of specifier) h)
