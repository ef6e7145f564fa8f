-- ===== src/Core/Trap/Sound.antt =====
-- A trap keeps the invariant of the core: `Core::trap` of red-planet-core/src/core/trap.rs.
use redplanet.Base.{
  ℕ, ◌*◌, ◌^◌, ◌<◌, arith, Bool, true, false, not, ◌&&◌, none, some, if◌then◌else◌, wrapping_add,
}
use redplanet.Registers.{set_pc}
use redplanet.Registers.Laws.{set_pc-IsValid}
use redplanet.Core.Machine.{Exception, Core}
use redplanet.Core.Status
use redplanet.Core.Status.Laws.{
  set_mie-IsLegal, set_sie-IsLegal, set_mpie-IsLegal, set_spie-IsLegal, set_spp-IsLegal,
  set_mpp-IsLegal,
}
use redplanet.Core.Cause.{Cause, cause_code}
use redplanet.Core.State.{Rest}
use redplanet.Core.Trap
use redplanet.Core.Trap.Entry
use redplanet.Core.Sound.{CoreContract}
use redplanet.Core.Execute.Sound.{Contract, IsCodeAddress, IsWordException, IsSoundCore}

-- What the cause carries is a word.
abbrev pub IsWordCause : Cause → Type 0
IsWordCause (Cause.exception none) = Unit
IsWordCause (Cause.exception (some e)) = IsWordException e
IsWordCause (Cause.interrupt i) = Unit

trap_value-lt :
    (cause : Cause) (pc : ℕ) → IsWordCause cause → pc < 2 ^ 32 → Entry.trap_value cause pc < 2 ^ 32
unfolding Entry.trap_value
trap_value-lt (Cause.exception none) pc h k = omega arith
trap_value-lt (Cause.interrupt i) pc h k = omega arith
trap_value-lt (Cause.exception (some (Exception.illegal_instruction none))) pc h k = omega arith
trap_value-lt (Cause.exception (some (Exception.illegal_instruction (some raw)))) pc h k = h
trap_value-lt (Cause.exception (some Exception.breakpoint)) pc h k = k
trap_value-lt (Cause.exception (some (Exception.instruction_address_misaligned a))) pc h k = h
trap_value-lt (Cause.exception (some (Exception.instruction_access_fault a))) pc h k = h
trap_value-lt (Cause.exception (some (Exception.load_address_misaligned a))) pc h k = h
trap_value-lt (Cause.exception (some (Exception.store_or_amo_address_misaligned a))) pc h k = h
trap_value-lt (Cause.exception (some (Exception.load_access_fault a))) pc h k = h
trap_value-lt (Cause.exception (some (Exception.store_or_amo_access_fault a))) pc h k = h
trap_value-lt (Cause.exception (some (Exception.instruction_page_fault a))) pc h k = h
trap_value-lt (Cause.exception (some (Exception.load_page_fault a))) pc h k = h
trap_value-lt (Cause.exception (some (Exception.store_or_amo_page_fault a))) pc h k = h
trap_value-lt (Cause.exception (some Exception.environment_call_from_u_mode)) pc h k = omega arith
trap_value-lt (Cause.exception (some Exception.environment_call_from_s_mode)) pc h k = omega arith
trap_value-lt (Cause.exception (some Exception.environment_call_from_m_mode)) pc h k = omega arith

handler-IsCodeAddress :
    (base : ℕ) (mode : Trap.VectorMode) (cause : Cause)
    → IsCodeAddress base
    → IsCodeAddress (Entry.trap_handler_address base mode cause)
unfolding Entry.trap_handler_address
handler-IsCodeAddress base Trap.VectorMode.direct cause h = h
handler-IsCodeAddress base Trap.VectorMode.vectored (Cause.exception e) h = h
handler-IsCodeAddress base Trap.VectorMode.vectored (Cause.interrupt i) h =
    go (Trap.interrupt_number_or_zero i)
  where
    go : (n : ℕ) → IsCodeAddress (wrapping_add base (4 * n))
    go n = record { word = omega arith; aligned = omega (arith, h.aligned) }

module _ {B : Type 0} (P : B → Type 0) where
  abbrev R : Contract (Rest B)
  R = CoreContract P

  trap_to_s_mode-IsSound :
      (cause : Cause) (c : Core (Rest B))
      → IsWordCause cause
      → IsSoundCore R c
      → IsSoundCore R (Entry.trap_to_s_mode cause c)
  unfolding Entry.trap_to_s_mode Trap.set_s_trap_cause set_pc
  trap_to_s_mode-IsSound cause c k s =
      let t = s.hart.rest.trap in
      record {
        valid = set_pc-IsValid c.registers _ s.valid;
        pc = handler-IsCodeAddress _ _ cause t.s_base;
        hart = record {
          legal = set_spp-IsLegal (Entry.raw_level c.hart.privilege_mode) _ (
              set_sie-IsLegal false _
                (set_spie-IsLegal (Status.sie c.hart.status) c.hart.status s.hart.legal));
          sepc = s.pc;
          mepc = s.hart.mepc;
          rest = record {
            counters = s.hart.rest.counters;
            control = s.hart.rest.control;
            trap = record {
              m_base = t.m_base;
              s_base = t.s_base;
              mscratch = t.mscratch;
              sscratch = t.sscratch;
              delegate = t.delegate;
              mtval = t.mtval;
              mtval2 = t.mtval2;
              mtinst = t.mtinst;
              stval = trap_value-lt cause c.registers.pc k s.pc.word;
              ppn = t.ppn;
            };
            interrupts = s.hart.rest.interrupts;
            envcfg = s.hart.rest.envcfg;
            bus = s.hart.rest.bus;
          };
        };
      }

  trap_to_m_mode-IsSound :
      (cause : Cause) (c : Core (Rest B))
      → IsWordCause cause
      → IsSoundCore R c
      → IsSoundCore R (Entry.trap_to_m_mode cause c)
  unfolding Entry.trap_to_m_mode Trap.set_m_trap_cause set_pc
  trap_to_m_mode-IsSound cause c k s =
      let t = s.hart.rest.trap in
      record {
        valid = set_pc-IsValid c.registers _ s.valid;
        pc = handler-IsCodeAddress _ _ cause t.m_base;
        hart = record {
          legal = set_mpp-IsLegal (Entry.raw_level c.hart.privilege_mode) _ (
              set_mie-IsLegal false _
                (set_mpie-IsLegal (Status.mie c.hart.status) c.hart.status s.hart.legal));
          sepc = s.hart.sepc;
          mepc = s.pc;
          rest = record {
            counters = s.hart.rest.counters;
            control = s.hart.rest.control;
            trap = record {
              m_base = t.m_base;
              s_base = t.s_base;
              mscratch = t.mscratch;
              sscratch = t.sscratch;
              delegate = t.delegate;
              mtval = trap_value-lt cause c.registers.pc k s.pc.word;
              mtval2 = omega arith;
              mtinst = omega arith;
              stval = t.stval;
              ppn = t.ppn;
            };
            interrupts = s.hart.rest.interrupts;
            envcfg = s.hart.rest.envcfg;
            bus = s.hart.rest.bus;
          };
        };
      }

  pub trap-IsSound :
      (cause : Cause) (c : Core (Rest B))
      → IsWordCause cause
      → IsSoundCore R c
      → IsSoundCore R (Entry.trap cause c)
  unfolding Entry.trap
  trap-IsSound cause c k s = go (
      not (Entry.is_machine c.hart.privilege_mode)
      && Entry.should_delegate_cause (cause_code cause) c.hart.rest)
    where
      go :
          (b : Bool)
          → IsSoundCore R (if b then Entry.trap_to_s_mode cause c else Entry.trap_to_m_mode cause c)
      go true = trap_to_s_mode-IsSound cause c k s
      go false = trap_to_m_mode-IsSound cause c k s
