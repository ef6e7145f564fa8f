-- ===== src/Core/Trap/Entry.antt =====
-- Taking a trap, `Core::trap` of red-planet-core/src/core/trap.rs. The address of a vectored handler is
-- computed as a release build does; where the sum does not fit, a debug build panics.
use redplanet.Base.{
  ℕ, ◌*◌, Bool, true, false, not, ◌&&◌, Option, none, some, if◌then◌else◌, wrapping_add,
}
use redplanet.Registers.{set_pc}
use redplanet.Privilege.{PrivilegeLevel, RawPrivilegeLevel}
use redplanet.Core.Machine.{Exception, Core}
use redplanet.Core.Status.{sie, set_spie, set_sie, set_spp, mie, set_mpie, set_mie, set_mpp}
use redplanet.Core.Cause.{Cause, CauseCode, cause_code}
use redplanet.Core.Interrupts.{should_delegate}
use redplanet.Core.State.{Rest}
use redplanet.Core.Trap.{
  VectorMode, interrupt_number_or_zero, set_s_trap_cause, set_m_trap_cause,
  should_delegate_exception,
}

abbrev pub is_machine : PrivilegeLevel → Bool
is_machine PrivilegeLevel.machine = true
is_machine PrivilegeLevel.user = false
is_machine PrivilegeLevel.supervisor = false

-- `From<PrivilegeLevel> for RawPrivilegeLevel`
abbrev pub raw_level : PrivilegeLevel → RawPrivilegeLevel
raw_level PrivilegeLevel.user = RawPrivilegeLevel.user
raw_level PrivilegeLevel.supervisor = RawPrivilegeLevel.supervisor
raw_level PrivilegeLevel.machine = RawPrivilegeLevel.machine

abbrev pub raw_or_zero : Option ℕ → ℕ
raw_or_zero none = 0
raw_or_zero (some raw) = raw

unfoldable pub trap_value : Cause → (pc : ℕ) → ℕ
trap_value (Cause.exception (some (Exception.illegal_instruction raw))) pc = raw_or_zero raw
trap_value (Cause.exception (some Exception.breakpoint)) pc = pc
trap_value (Cause.exception (some (Exception.instruction_address_misaligned a))) pc = a
trap_value (Cause.exception (some (Exception.instruction_access_fault a))) pc = a
trap_value (Cause.exception (some (Exception.load_address_misaligned a))) pc = a
trap_value (Cause.exception (some (Exception.store_or_amo_address_misaligned a))) pc = a
trap_value (Cause.exception (some (Exception.load_access_fault a))) pc = a
trap_value (Cause.exception (some (Exception.store_or_amo_access_fault a))) pc = a
trap_value (Cause.exception (some (Exception.instruction_page_fault a))) pc = a
trap_value (Cause.exception (some (Exception.load_page_fault a))) pc = a
trap_value (Cause.exception (some (Exception.store_or_amo_page_fault a))) pc = a
trap_value (Cause.exception (some Exception.environment_call_from_u_mode)) pc = 0
trap_value (Cause.exception (some Exception.environment_call_from_s_mode)) pc = 0
trap_value (Cause.exception (some Exception.environment_call_from_m_mode)) pc = 0
trap_value (Cause.exception none) pc = 0
trap_value (Cause.interrupt i) pc = 0

unfoldable pub trap_handler_address : (tvec_base : ℕ) → VectorMode → Cause → ℕ
trap_handler_address tvec_base VectorMode.vectored (Cause.interrupt i) =
    wrapping_add tvec_base (4 * interrupt_number_or_zero i)
trap_handler_address tvec_base VectorMode.vectored (Cause.exception e) = tvec_base
trap_handler_address tvec_base VectorMode.direct cause = tvec_base

module _ {B : Type 0} where
  unfoldable pub should_delegate_cause : CauseCode → Rest B → Bool
  unfolding should_delegate_exception should_delegate
  should_delegate_cause (CauseCode.exception (some c)) r = should_delegate_exception c r.trap
  should_delegate_cause (CauseCode.exception none) r = false
  should_delegate_cause (CauseCode.interrupt (some i)) r = should_delegate i r.interrupts
  should_delegate_cause (CauseCode.interrupt none) r = false

  -- The branches of `trap` that are taken when it is delegated, in the order of the source.
  unfoldable pub trap_to_s_mode : Cause → Core (Rest B) → Core (Rest B)
  unfolding trap_value trap_handler_address set_s_trap_cause set_pc set_spp set_sie set_spie sie
  trap_to_s_mode cause c =
      let pc = c.registers.pc in
      let trap = set_s_trap_cause cause c.hart.rest.trap in
      let status = c.hart.status in
      record {
        registers =
            set_pc c.registers
              (trap_handler_address trap.s_vector_base_address trap.s_vector_mode cause);
        hart = record {
          privilege_mode = PrivilegeLevel.supervisor;
          status =
              set_spp (raw_level c.hart.privilege_mode)
                (set_sie false (set_spie (sie status) status));
          sepc = pc;
          mepc = c.hart.mepc;
          rest = record c.hart.rest { trap = record trap { stval = trap_value cause pc } };
        };
      }

  -- Those taken when it is not.
  unfoldable pub trap_to_m_mode : Cause → Core (Rest B) → Core (Rest B)
  unfolding trap_value trap_handler_address set_m_trap_cause set_pc set_mpp set_mie set_mpie mie
  trap_to_m_mode cause c =
      let pc = c.registers.pc in
      let trap = set_m_trap_cause cause c.hart.rest.trap in
      let status = c.hart.status in
      record {
        registers =
            set_pc c.registers
              (trap_handler_address trap.m_vector_base_address trap.m_vector_mode cause);
        hart = record {
          privilege_mode = PrivilegeLevel.machine;
          status =
              set_mpp (raw_level c.hart.privilege_mode)
                (set_mie false (set_mpie (mie status) status));
          sepc = c.hart.sepc;
          mepc = pc;
          rest = record c.hart.rest {
            trap = record trap { mtval = trap_value cause pc; mtval2 = 0; mtinst = 0 };
          };
        };
      }

  unfoldable pub trap : Cause → Core (Rest B) → Core (Rest B)
  unfolding should_delegate_cause trap_to_s_mode trap_to_m_mode
  trap cause c =
      if not (is_machine c.hart.privilege_mode)
        && should_delegate_cause (cause_code cause) c.hart.rest
      then trap_to_s_mode cause c
      else trap_to_m_mode cause c
