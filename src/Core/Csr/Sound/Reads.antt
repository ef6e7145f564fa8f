-- ===== src/Core/Csr/Sound/Reads.antt =====
-- The reads of the CSRs keep the invariant of the core, give words, and panic only where a device does.
use redplanet.Base.{
  List, ℕ, ◌^◌, ◌≤◌, ◌<◌, ◌≡◌, arith, Bool, true, false, not, Option, none, some, if◌then◌else◌,
  replicate, u32, ◌>>>◌,
}
use redplanet.Base.Bounds.{bit_and-lt}
use redplanet.Privilege.{PrivilegeLevel}
use redplanet.Instruction.Types.{CsrSpecifier}
use redplanet.Core.Machine.{of_core, Hart, CsrAccessError, failure, crashed}
use redplanet.Core.Status
use redplanet.Core.Status.Csr as StatusCsr
use redplanet.Core.Trap
use redplanet.Core.Trap.Laws as TrapLaws
use redplanet.Core.Trap.Laws.{IsSoundTrap}
use redplanet.Core.Interrupts
use redplanet.Core.Counters
use redplanet.Core.State.{Rest, Config, SystemBus, BusOutcome, accessed, bus_panicked, settle}
use redplanet.Core.Execute.Sound.{Contract, IsSoundHart, IsSoundCsrRead}
use redplanet.Core.Sound.{IsBytesRead, CoreContract, IsSoundBus}
use redplanet.Core.Csr.Names.{Csr, Fits, name_of, name_of-Fits}
use redplanet.Core.Csr.Read
use redplanet.Core.Csr.Sound.{hpm_in_range, with_bus-IsSound}

module _ {B : Type 0} (P : B → Type 0) where
  abbrev R : Contract (Rest B)
  R = CoreContract P

  abbrev IsSound : Hart (Rest B) → Type 0
  IsSound = IsSoundHart R

  module _ (h : Hart (Rest B)) (s : IsSound h) where
    or_crash-IsSound :
        (o : Option ℕ) → TrapLaws.IsSoundTvec o → IsSoundCsrRead R (Read.or_crash h o)
    or_crash-IsSound none k = k
    or_crash-IsSound (some v) k = (k, s)

    unless_denied-IsSound :
        (o : Option CsrAccessError) (r : Read.CsrReadResult B)
        → IsSoundCsrRead R r
        → IsSoundCsrRead R (Read.unless_denied o h r)
    unless_denied-IsSound none r k = k
    unless_denied-IsSound (some e) r k = s

    read_mhpm-IsSound :
        (n : ℕ) → 3 ≤ n → n ≤ 31 → IsSoundCsrRead R (Read.or_crash h (Counters.read_mhpm n))
    unfolding Counters.read_mhpm
    read_mhpm-IsSound n a b = rw (hpm_in_range n a b) (omega arith, s)

    read_hpmcounter-IsSound : (n : ℕ) → 3 ≤ n → n ≤ 31 → IsSoundCsrRead R (Read.read_hpmcounter n h)
    unfolding Read.read_hpmcounter
    read_hpmcounter-IsSound n a b = go (Counters.is_hpm_number n) (hpm_in_range n a b)
      where
        go :
            (c : Bool)
            → c ≡ true
            → IsSoundCsrRead R (
                if not c
                then (crashed of_core)
                else Read.counted n
                    (Read.hpm_specifier n)
                    h
                    (Read.or_crash h (Counters.read_mhpm n)))
        go true e = unless_denied-IsSound _ _ (read_mhpm-IsSound n a b)
        go false e = cc

    read_satp-IsSound : IsSoundCsrRead R (Read.read_satp h)
    unfolding Read.read_satp
    read_satp-IsSound = go (Status.tvm h.status)
      where
        go :
            (c : Bool)
            → IsSoundCsrRead R (
                if c
                then failure (CsrAccessError.csr_unavailable 0x180) h
                else Read.read_ok h (Trap.satp h.rest.trap))
        go true = s
        go false = (TrapLaws.satp-lt h.rest.trap s.rest.trap, s)

  module _ (config : Config) (bus : SystemBus B) (sound : IsSoundBus P bus) where
    read_time-IsSound :
        (h : Hart (Rest B))
        → IsSound h
        → IsSoundCsrRead R (Read.read_time config bus h)
          × IsSoundCsrRead R (Read.read_timeh config bus h)
    unfolding Read.read_time Read.read_timeh Read.read_mtime
    read_time-IsSound h s = (
      unless_denied-IsSound h s _ _ (clock u32 (λ n. omega arith)),
      unless_denied-IsSound h s _ _ (clock (λ n. u32 (n >>> 32)) (λ n. omega arith)),
    )
      where
        settled :
            (f : ℕ → ℕ)
            → ((n : ℕ) → f n < 2 ^ 32)
            → (o : BusOutcome B (List ℕ)) → IsBytesRead P 8 o
            → IsSoundCsrRead R (Read.mapped f (settle Read.from_le_bytes h o))
        settled f small (accessed buf b calls) k = (small _, with_bus-IsSound P h s b calls k.1)
        settled f small bus_panicked k = tt

        clock :
            (f : ℕ → ℕ)
            → ((n : ℕ) → f n < 2 ^ 32)
            → IsSoundCsrRead R (Read.mapped f (Read.read_mtime config bus h))
        clock f small = settled f small _ (
            sound.bytes_read 8 (replicate 8 0) config.mtime_address h.rest.bus (omega arith)
              s.rest.bus)

    read_named-IsSound :
        (specifier : CsrSpecifier) (c : Csr) (h : Hart (Rest B))
        → config.hart_id < 2 ^ 32
        → Fits specifier c
        → IsSound h
        → IsSoundCsrRead R (Read.read_named config bus specifier c h)
    unfolding Read.read_named StatusCsr.read_sstatus StatusCsr.read_mstatus StatusCsr.read_mstatush
        Interrupts.read_sie Interrupts.read_sip Trap.read_stvec Trap.read_mtvec Trap.read_scause
        Trap.read_mcause
    read_named-IsSound spec Csr.fflags h k f s = s
    read_named-IsSound spec Csr.frm h k f s = s
    read_named-IsSound spec Csr.fcsr h k f s = s
    read_named-IsSound spec Csr.scontext h k f s = s
    read_named-IsSound spec Csr.mseccfg h k f s = s
    read_named-IsSound spec Csr.mseccfgh h k f s = s
    read_named-IsSound spec Csr.tselect h k f s = s
    read_named-IsSound spec Csr.tdata1 h k f s = s
    read_named-IsSound spec Csr.tdata2 h k f s = s
    read_named-IsSound spec Csr.tdata3 h k f s = s
    read_named-IsSound spec Csr.mcontext h k f s = s
    read_named-IsSound spec Csr.unnamed h k f s = s
    read_named-IsSound spec Csr.cycle h k f s =
        unless_denied-IsSound h s _ (Read.read_ok h h.rest.counters.mcycle)
          (s.rest.counters.mcycle, s)
    read_named-IsSound spec Csr.cycleh h k f s =
        unless_denied-IsSound h s _ (Read.read_ok h h.rest.counters.mcycleh)
          (s.rest.counters.mcycleh, s)
    read_named-IsSound spec Csr.instret h k f s =
        unless_denied-IsSound h s _ (Read.read_ok h h.rest.counters.minstret)
          (s.rest.counters.minstret, s)
    read_named-IsSound spec Csr.instreth h k f s =
        unless_denied-IsSound h s _ (Read.read_ok h h.rest.counters.minstreth)
          (s.rest.counters.minstreth, s)
    read_named-IsSound spec Csr.time h k f s = (read_time-IsSound h s).0
    read_named-IsSound spec Csr.timeh h k f s = (read_time-IsSound h s).1
    read_named-IsSound spec (Csr.hpmcounter n) h k (_, a, b) s = read_hpmcounter-IsSound h s n a b
    read_named-IsSound spec (Csr.hpmcounterh n) h k (_, a, b) s = read_hpmcounter-IsSound h s n a b
    read_named-IsSound spec (Csr.mhpmcounter n) h k (a, b) s = read_mhpm-IsSound h s n a b
    read_named-IsSound spec (Csr.mhpmcounterh n) h k (a, b) s = read_mhpm-IsSound h s n a b
    read_named-IsSound spec (Csr.mhpmevent n) h k (a, b) s = read_mhpm-IsSound h s n a b
    read_named-IsSound spec Csr.sstatus h k f s =
        (bit_and-lt 32 h.status.mstatus Status.sstatus_mask s.legal.word, s)
    read_named-IsSound spec Csr.mstatus h k f s = (s.legal.word, s)
    read_named-IsSound spec Csr.mstatush h k f s = (s.legal.high, s)
    read_named-IsSound spec Csr.sie h k f s = (
      omega (
        arith,
        bit_and-lt 16 h.rest.interrupts.mie h.rest.interrupts.delegate s.rest.interrupts.mie,
      ),
      s,
    )
    read_named-IsSound spec Csr.sip h k f s = (
      omega (
        arith,
        bit_and-lt 16 h.rest.interrupts.mip h.rest.interrupts.delegate s.rest.interrupts.mip,
      ),
      s,
    )
    read_named-IsSound spec Csr.mideleg h k f s = (omega (arith, s.rest.interrupts.delegate), s)
    read_named-IsSound spec Csr.mie h k f s = (omega (arith, s.rest.interrupts.mie), s)
    read_named-IsSound spec Csr.mip h k f s = (omega (arith, s.rest.interrupts.mip), s)
    read_named-IsSound spec Csr.stvec h k f s = or_crash-IsSound h s _ (
        TrapLaws.read_tvec-IsSound h.rest.trap.s_vector_base_address h.rest.trap.s_vector_mode
          s.rest.trap.s_base)
    read_named-IsSound spec Csr.mtvec h k f s = or_crash-IsSound h s _ (
        TrapLaws.read_tvec-IsSound h.rest.trap.m_vector_base_address h.rest.trap.m_vector_mode
          s.rest.trap.m_base)
    read_named-IsSound spec Csr.mcounteren h k f s = (s.rest.control.mcounteren, s)
    read_named-IsSound spec Csr.scounteren h k f s = (s.rest.control.scounteren, s)
    read_named-IsSound spec Csr.mcountinhibit h k f s = (s.rest.control.mcountinhibit, s)
    read_named-IsSound spec Csr.mcycle h k f s = (s.rest.counters.mcycle, s)
    read_named-IsSound spec Csr.mcycleh h k f s = (s.rest.counters.mcycleh, s)
    read_named-IsSound spec Csr.minstret h k f s = (s.rest.counters.minstret, s)
    read_named-IsSound spec Csr.minstreth h k f s = (s.rest.counters.minstreth, s)
    read_named-IsSound spec Csr.senvcfg h k f s = (s.rest.envcfg.menvcfg, s)
    read_named-IsSound spec Csr.menvcfg h k f s = (s.rest.envcfg.menvcfg, s)
    read_named-IsSound spec Csr.menvcfgh h k f s = (s.rest.envcfg.menvcfgh, s)
    read_named-IsSound spec Csr.mscratch h k f s = (s.rest.trap.mscratch, s)
    read_named-IsSound spec Csr.sscratch h k f s = (s.rest.trap.sscratch, s)
    read_named-IsSound spec Csr.mtval h k f s = (s.rest.trap.mtval, s)
    read_named-IsSound spec Csr.mtval2 h k f s = (s.rest.trap.mtval2, s)
    read_named-IsSound spec Csr.mtinst h k f s = (s.rest.trap.mtinst, s)
    read_named-IsSound spec Csr.stval h k f s = (s.rest.trap.stval, s)
    read_named-IsSound spec Csr.medeleg h k f s = (s.rest.trap.delegate, s)
    read_named-IsSound spec Csr.mcause h k f s =
        (TrapLaws.read_cause-lt h.rest.trap.last_m_trap_cause h.rest.trap.mcause_override, s)
    read_named-IsSound spec Csr.scause h k f s =
        (TrapLaws.read_cause-lt h.rest.trap.last_m_trap_cause h.rest.trap.scause_override, s)
    read_named-IsSound spec Csr.sepc h k f s = (s.sepc.word, s)
    read_named-IsSound spec Csr.mepc h k f s = (s.mepc.word, s)
    read_named-IsSound spec Csr.satp h k f s = read_satp-IsSound h s
    read_named-IsSound spec Csr.mvendorid h k f s = (omega arith, s)
    read_named-IsSound spec Csr.marchid h k f s = (omega arith, s)
    read_named-IsSound spec Csr.mimpid h k f s = (omega arith, s)
    read_named-IsSound spec Csr.mconfigptr h k f s = (omega arith, s)
    read_named-IsSound spec Csr.misa h k f s = (omega arith, s)
    read_named-IsSound spec Csr.mhartid h k f s = (k, s)

    -- Over a sound bus the reads of the CSRs read words, keep the invariant and panic only where
    -- a device does.
    pub read_csr-IsSound :
        (specifier : CsrSpecifier) (level : PrivilegeLevel) (h : Hart (Rest B))
        → config.hart_id < 2 ^ 32
        → IsSound h
        → IsSoundCsrRead R (Read.read_csr config bus specifier level h)
    unfolding Read.read_csr
    read_csr-IsSound specifier level h k s =
        unless_denied-IsSound h s _ _
          (read_named-IsSound specifier (name_of specifier) h k (name_of-Fits specifier) s)
