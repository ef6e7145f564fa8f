-- ===== src/Core/Cause.antt =====
-- The causes of traps: the codes of exceptions and interrupts of red-planet-core/src/core/mod.rs, and
-- the causes of core/trap.rs.
use redplanet.Base.{ℕ, Option, none, some, ◌==◌, if◌then◌else◌}
use redplanet.Core.Machine.{Exception}

pub data ExceptionCode : Type 0 where
  instruction_address_misaligned instruction_access_fault illegal_instruction : ExceptionCode
  breakpoint load_address_misaligned load_access_fault : ExceptionCode
  store_or_amo_address_misaligned store_or_amo_access_fault : ExceptionCode
  environment_call_from_u_mode environment_call_from_s_mode : ExceptionCode
  environment_call_from_m_mode instruction_page_fault load_page_fault : ExceptionCode
  store_or_amo_page_fault : ExceptionCode

pub data Interrupt : Type 0 where
  supervisor_software_interrupt machine_software_interrupt : Interrupt
  supervisor_timer_interrupt machine_timer_interrupt : Interrupt
  supervisor_external_interrupt machine_external_interrupt : Interrupt

-- The discriminants.
abbrev pub exception_number : ExceptionCode → ℕ
exception_number ExceptionCode.instruction_address_misaligned = 0
exception_number ExceptionCode.instruction_access_fault = 1
exception_number ExceptionCode.illegal_instruction = 2
exception_number ExceptionCode.breakpoint = 3
exception_number ExceptionCode.load_address_misaligned = 4
exception_number ExceptionCode.load_access_fault = 5
exception_number ExceptionCode.store_or_amo_address_misaligned = 6
exception_number ExceptionCode.store_or_amo_access_fault = 7
exception_number ExceptionCode.environment_call_from_u_mode = 8
exception_number ExceptionCode.environment_call_from_s_mode = 9
exception_number ExceptionCode.environment_call_from_m_mode = 11
exception_number ExceptionCode.instruction_page_fault = 12
exception_number ExceptionCode.load_page_fault = 13
exception_number ExceptionCode.store_or_amo_page_fault = 15

abbrev pub interrupt_number : Interrupt → ℕ
interrupt_number Interrupt.supervisor_software_interrupt = 1
interrupt_number Interrupt.machine_software_interrupt = 3
interrupt_number Interrupt.supervisor_timer_interrupt = 5
interrupt_number Interrupt.machine_timer_interrupt = 7
interrupt_number Interrupt.supervisor_external_interrupt = 9
interrupt_number Interrupt.machine_external_interrupt = 11

-- `ExceptionCode::try_from` and `Interrupt::try_from`; the text of the error is left out.
unfoldable pub exception_of_number : ℕ → Option ExceptionCode
exception_of_number v =
    if v == 0
    then some ExceptionCode.instruction_address_misaligned
    else if v == 1
    then some ExceptionCode.instruction_access_fault
    else if v == 2
    then some ExceptionCode.illegal_instruction
    else if v == 3
    then some ExceptionCode.breakpoint
    else if v == 4
    then some ExceptionCode.load_address_misaligned
    else if v == 5
    then some ExceptionCode.load_access_fault
    else if v == 6
    then some ExceptionCode.store_or_amo_address_misaligned
    else if v == 7
    then some ExceptionCode.store_or_amo_access_fault
    else if v == 8
    then some ExceptionCode.environment_call_from_u_mode
    else if v == 9
    then some ExceptionCode.environment_call_from_s_mode
    else if v == 11
    then some ExceptionCode.environment_call_from_m_mode
    else if v == 12
    then some ExceptionCode.instruction_page_fault
    else if v == 13
    then some ExceptionCode.load_page_fault
    else if v == 15
    then some ExceptionCode.store_or_amo_page_fault
    else none

unfoldable pub interrupt_of_number : ℕ → Option Interrupt
interrupt_of_number v =
    if v == 1
    then some Interrupt.supervisor_software_interrupt
    else if v == 3
    then some Interrupt.machine_software_interrupt
    else if v == 5
    then some Interrupt.supervisor_timer_interrupt
    else if v == 7
    then some Interrupt.machine_timer_interrupt
    else if v == 9
    then some Interrupt.supervisor_external_interrupt
    else if v == 11
    then some Interrupt.machine_external_interrupt
    else none

-- `Exception::code`
abbrev pub code : Exception → ExceptionCode
code (Exception.instruction_address_misaligned a) = ExceptionCode.instruction_address_misaligned
code (Exception.instruction_access_fault a) = ExceptionCode.instruction_access_fault
code (Exception.illegal_instruction raw) = ExceptionCode.illegal_instruction
code Exception.breakpoint = ExceptionCode.breakpoint
code (Exception.load_address_misaligned a) = ExceptionCode.load_address_misaligned
code (Exception.load_access_fault a) = ExceptionCode.load_access_fault
code (Exception.store_or_amo_address_misaligned a) = ExceptionCode.store_or_amo_address_misaligned
code (Exception.store_or_amo_access_fault a) = ExceptionCode.store_or_amo_access_fault
code Exception.environment_call_from_u_mode = ExceptionCode.environment_call_from_u_mode
code Exception.environment_call_from_s_mode = ExceptionCode.environment_call_from_s_mode
code Exception.environment_call_from_m_mode = ExceptionCode.environment_call_from_m_mode
code (Exception.instruction_page_fault a) = ExceptionCode.instruction_page_fault
code (Exception.load_page_fault a) = ExceptionCode.load_page_fault
code (Exception.store_or_amo_page_fault a) = ExceptionCode.store_or_amo_page_fault

pub data Cause : Type 0 where
  exception : Option Exception → Cause
  interrupt : Option Interrupt → Cause

pub data CauseCode : Type 0 where
  exception : Option ExceptionCode → CauseCode
  interrupt : Option Interrupt → CauseCode

-- `Cause::code`
abbrev pub cause_code : Cause → CauseCode
cause_code (Cause.exception none) = CauseCode.exception none
cause_code (Cause.exception (some e)) = CauseCode.exception (some (code e))
cause_code (Cause.interrupt i) = CauseCode.interrupt i
