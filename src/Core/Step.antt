-- ===== src/Core/Step.antt =====
-- A step of the core, `step` and what it calls of red-planet-core/src/core/mod.rs, with
-- `highest_priority_ready_interrupt` of core/interrupts.rs. A panic
-- ends it.
pub mod Sound
pub mod Laws
pub mod Interrupted
use redplanet.Base.{ℕ, Bool, true, false, not, ◌&&◌, Option, none, some, if◌then◌else◌}
use redplanet.Registers.{Registers}
use redplanet.Privilege.{PrivilegeLevel}
use redplanet.Instruction.Types.{Instruction}
use redplanet.Instruction.Decode.{Decoded, ok, err, decode}
use redplanet.Core.Machine.{
  Panic, Exception, MemoryError, Hart, Core, Access, Outcome, success, failure, crashed, done,
  raised, panicked,
}
use redplanet.Core.Status.{mie, sie}
use redplanet.Core.Cause.{Interrupt, Cause}
use redplanet.Core.Interrupts.{highest_priority_m_ready, highest_priority_s_ready}
use redplanet.Core.Counters.{increment_cycle_counter, increment_instret_counter}
use redplanet.Core.State.{Rest, Config, SystemBus, with_counters}
use redplanet.Core.Trap.Entry.{is_machine, trap}
use redplanet.Core.Mmu.Ports.{machine, fetch_instruction}
use redplanet.Core.Execute.Dispatch.{execute_instruction}

-- The core after a step, or the panic that ended it.
pub data Stepped (W : Type 0) : Type 0 where
  stepped : Core W → Stepped W
  stopped : Panic → Stepped W

abbrev pub is_supervisor : PrivilegeLevel → Bool
is_supervisor PrivilegeLevel.supervisor = true
is_supervisor PrivilegeLevel.user = false
is_supervisor PrivilegeLevel.machine = false

-- The instruction to run, or the exception that stands in for it.
pub data Fetched : Type 0 where
  instruction : Instruction → Fetched
  fault : Exception → Fetched

abbrev pub fetch_error : (pc : ℕ) → MemoryError → Exception
fetch_error pc MemoryError.misaligned_access = Exception.instruction_address_misaligned pc
fetch_error pc MemoryError.access_fault = Exception.instruction_access_fault pc
fetch_error pc MemoryError.page_fault = Exception.instruction_page_fault pc

-- Whether the instret counter may count the instruction, be it that it raised an exception.
abbrev pub is_counted : Instruction → Bool
is_counted Instruction.ecall = false
is_counted Instruction.ebreak = false
is_counted _ = true

module _ {B : Type 0} where
  abbrev pub after_m_ready : Option Interrupt → Hart (Rest B) → Option Interrupt
  unfolding sie highest_priority_s_ready
  after_m_ready (some interrupt) h = some interrupt
  after_m_ready none h =
      if is_supervisor h.privilege_mode && not (sie h.status)
      then none
      else highest_priority_s_ready h.rest.interrupts

  unfoldable pub highest_priority_ready_interrupt : Hart (Rest B) → Option Interrupt
  unfolding mie after_m_ready highest_priority_m_ready
  highest_priority_ready_interrupt h =
      if is_machine h.privilege_mode && not (mie h.status)
      then none
      else after_m_ready (highest_priority_m_ready h.rest.interrupts) h

  abbrev pub take_interrupt : Option Interrupt → Core (Rest B) → Core (Rest B) × Bool
  unfolding trap
  take_interrupt none c = (c, false)
  take_interrupt (some interrupt) c = (trap (Cause.interrupt (some interrupt)) c, true)

  unfoldable pub check_for_interrupts : Core (Rest B) → Core (Rest B) × Bool
  unfolding take_interrupt highest_priority_ready_interrupt
  check_for_interrupts c = take_interrupt (highest_priority_ready_interrupt c.hart) c

  unfoldable pub count_cycle : Core (Rest B) → Core (Rest B)
  unfolding increment_cycle_counter
  count_cycle c = record c {
    hart =
        with_counters c.hart
          (increment_cycle_counter c.hart.rest.counter_control c.hart.rest.counters);
  }

  unfoldable pub count_instret : Core (Rest B) → Core (Rest B)
  unfolding increment_instret_counter
  count_instret c = record c {
    hart =
        with_counters c.hart
          (increment_instret_counter c.hart.rest.counter_control c.hart.rest.counters);
  }

  abbrev pub update_counters : (counted : Bool) → Core (Rest B) → Core (Rest B)
  unfolding count_cycle count_instret
  update_counters counted c = if counted then count_instret (count_cycle c) else count_cycle c

  abbrev pub conclude : (counted : Bool) → Outcome (Rest B) → Stepped (Rest B)
  unfolding update_counters trap
  conclude counted (done c) = stepped (update_counters counted c)
  conclude counted (raised e c) =
      stepped (trap (Cause.exception (some e)) (update_counters counted c))
  conclude counted (panicked p) = stopped p

  module _ (config : Config) (bus : SystemBus B) where
    unfoldable pub step_with : Fetched → Core (Rest B) → Stepped (Rest B)
    unfolding conclude execute_instruction
    step_with (Fetched.instruction i) c =
        conclude (is_counted i) (execute_instruction (machine config bus) i c)
    step_with (Fetched.fault e) c = conclude false (raised e c)

    abbrev pub of_decoded : (raw : ℕ) → Decoded → Fetched
    of_decoded raw (ok i) = Fetched.instruction i
    of_decoded raw (err e) = Fetched.fault (Exception.illegal_instruction (some raw))

    -- The raw instruction and the state that its fetch leaves.
    abbrev pub step_with_raw : Registers → Access (Hart (Rest B)) ℕ → Stepped (Rest B)
    unfolding step_with decode
    step_with_raw r (success raw h) =
        step_with (of_decoded raw (decode raw)) (record { registers = r; hart = h })
    step_with_raw r (failure e h) =
        step_with (Fetched.fault (fetch_error r.pc e)) (record { registers = r; hart = h })
    step_with_raw r (crashed p) = stopped p

    abbrev pub then_interrupts : Stepped (Rest B) → Stepped (Rest B)
    unfolding check_for_interrupts
    then_interrupts (stopped p) = stopped p
    then_interrupts (stepped c) = stepped (check_for_interrupts c).0

    abbrev pub unless_interrupted : Core (Rest B) × Bool → Stepped (Rest B)
    unfolding then_interrupts step_with_raw fetch_instruction
    unless_interrupted (c, true) = stepped c
    unless_interrupted (c, false) =
        then_interrupts
          (step_with_raw c.registers (fetch_instruction config bus c.registers.pc c.hart))

    unfoldable pub step : Core (Rest B) → Stepped (Rest B)
    unfolding unless_interrupted check_for_interrupts
    step c = unless_interrupted (check_for_interrupts c)
