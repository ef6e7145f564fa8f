-- ===== src/Core/Trap.antt =====
-- The trap registers, red-planet-core/src/core/trap.rs, but for mepc and sepc, which stand in the
-- `Hart` of Core/Machine.antt, where the executor reads them. A read or write of a CSR of `Core` is a
-- function of the record; `none` is the panic of the assertion in `read_tvec`.
pub mod Laws
pub mod Writes
pub mod Saved
pub mod Sound
pub mod Entry
use redplanet.Base.{
  ℕ, ◌+◌, ◌*◌, ◌/◌, ◌%◌, ◌^◌, ◌==◌, Bool, true, false, not, Option, none, some, if◌then◌else◌, bit,
  set_bit, bit_and, bit_or, masked, not_u32, u32, ◌<<<◌,
}
use redplanet.Core.Cause.{
  ExceptionCode, Interrupt, Cause, CauseCode, code, exception_number, interrupt_number,
  exception_of_number, interrupt_of_number,
}

pub data VectorMode : Type 0 where
  direct vectored : VectorMode

pub data SatpMode : Type 0 where
  bare sv32 : SatpMode

pub record Trap : Type 0 where
  pub m_vector_base_address : ℕ
  pub m_vector_mode : VectorMode
  pub s_vector_base_address : ℕ
  pub s_vector_mode : VectorMode
  pub mscratch : ℕ
  pub sscratch : ℕ
  pub last_m_trap_cause : Cause
  pub mcause_override : Option CauseCode
  pub last_s_trap_cause : Cause
  pub scause_override : Option CauseCode
  pub delegate_exception : ℕ
  pub mtval : ℕ
  pub mtval2 : ℕ
  pub mtinst : ℕ
  pub stval : ℕ
  pub satp_mode : SatpMode
  pub satp_asid : ℕ
  pub satp_ppn : ℕ

unfoldable pub new : Trap
new = record {
  m_vector_base_address = 0;
  m_vector_mode = VectorMode.direct;
  s_vector_base_address = 0;
  s_vector_mode = VectorMode.direct;
  mscratch = 0;
  sscratch = 0;
  last_m_trap_cause = Cause.exception none;
  mcause_override = none;
  last_s_trap_cause = Cause.exception none;
  scause_override = none;
  delegate_exception = 0;
  mtval = 0;
  mtval2 = 0;
  mtinst = 0;
  stval = 0;
  satp_mode = SatpMode.bare;
  satp_asid = 0;
  satp_ppn = 0;
}

-- The bits of `DELEGATABLE_EXCEPTIONS_MASK`: every exception code.
abbrev pub delegatable_exceptions_mask : ℕ
delegatable_exceptions_mask = 0b1011_1011_1111_1111

unfoldable pub set_m_trap_cause : Cause → Trap → Trap
set_m_trap_cause cause t = record t { last_m_trap_cause = cause; mcause_override = none }

unfoldable pub set_s_trap_cause : Cause → Trap → Trap
set_s_trap_cause cause t = record t { last_s_trap_cause = cause; scause_override = none }

unfoldable pub should_delegate_exception : ExceptionCode → Trap → Bool
should_delegate_exception c t = bit t.delegate_exception (exception_number c)

abbrev pub mode_bits : VectorMode → ℕ
mode_bits VectorMode.direct = 0
mode_bits VectorMode.vectored = 1

unfoldable pub read_tvec : (base_address : ℕ) → VectorMode → Option ℕ
read_tvec base_address mode =
    if not (bit_and base_address 0b11 == 0)
    then none
    else some (bit_or base_address (mode_bits mode))

-- The new base address and mode. A reserved mode leaves both as they are.
abbrev pub tvec_fields : (base_address : ℕ) → VectorMode → (tvec : ℕ) → ℕ × VectorMode
tvec_fields base_address mode tvec =
    if bit_and tvec 0b11 == 0
    then (bit_and tvec (not_u32 0b11), VectorMode.direct)
    else if bit_and tvec 0b11 == 1
    then (bit_and tvec (not_u32 0b11), VectorMode.vectored)
    else (base_address, mode)

abbrev pub write_tvec_read :
    (base_address : ℕ) → VectorMode → (value mask : ℕ) → Option ℕ → Option (ℕ × VectorMode)
write_tvec_read base_address mode value mask none = none
write_tvec_read base_address mode value mask (some old) =
    some (tvec_fields base_address mode (masked old value mask))

unfoldable pub write_tvec :
    (base_address : ℕ) → VectorMode → (value mask : ℕ) → Option (ℕ × VectorMode)
unfolding read_tvec
write_tvec base_address mode value mask =
    write_tvec_read base_address mode value mask (read_tvec base_address mode)

abbrev pub exception_number_or_zero : Option ExceptionCode → ℕ
exception_number_or_zero none = 0
exception_number_or_zero (some c) = exception_number c

abbrev pub interrupt_number_or_zero : Option Interrupt → ℕ
interrupt_number_or_zero none = 0
interrupt_number_or_zero (some i) = interrupt_number i

abbrev pub override_number : CauseCode → ℕ
override_number (CauseCode.exception c) = exception_number_or_zero c
override_number (CauseCode.interrupt i) = bit_or 0x8000_0000 (interrupt_number_or_zero i)

abbrev pub cause_number : Cause → ℕ
cause_number (Cause.exception none) = 0
cause_number (Cause.exception (some e)) = exception_number (code e)
cause_number (Cause.interrupt i) = bit_or 0x8000_0000 (interrupt_number_or_zero i)

unfoldable pub read_cause : (last_trap_cause : Cause) (cause_override : Option CauseCode) → ℕ
read_cause last_trap_cause (some c) = override_number c
read_cause last_trap_cause none = cause_number last_trap_cause

abbrev pub exception_override : Option CauseCode → Option ExceptionCode → Option CauseCode
exception_override old none = old
exception_override old (some c) = some (CauseCode.exception (some c))

abbrev pub interrupt_override : Option CauseCode → Option Interrupt → Option CauseCode
interrupt_override old none = old
interrupt_override old (some i) = some (CauseCode.interrupt (some i))

-- The code is what is left of the word when bit 31 is replaced by 0.
abbrev pub override_of :
    (old : Option CauseCode) (is_interrupt : Bool) (cause : ℕ) → Option CauseCode
override_of old false cause =
    if cause == 0
    then some (CauseCode.exception none)
    else exception_override old (exception_of_number cause)
override_of old true cause =
    if cause == 0
    then some (CauseCode.interrupt none)
    else interrupt_override old (interrupt_of_number cause)

unfoldable pub write_cause :
    (last_trap_cause : Cause) (cause_override : Option CauseCode) (value mask : ℕ)
    → Option CauseCode
unfolding read_cause exception_of_number interrupt_of_number
write_cause last_trap_cause cause_override value mask =
    let cause = masked (read_cause last_trap_cause cause_override) value mask in
    override_of cause_override (bit cause 31) (set_bit cause 31 false)

abbrev pub with_m_vector : Option (ℕ × VectorMode) → Trap → Option Trap
with_m_vector none t = none
with_m_vector (some (base, mode)) t =
    some (record t { m_vector_base_address = base; m_vector_mode = mode })

abbrev pub with_s_vector : Option (ℕ × VectorMode) → Trap → Option Trap
with_s_vector none t = none
with_s_vector (some (base, mode)) t =
    some (record t { s_vector_base_address = base; s_vector_mode = mode })

unfoldable pub read_mtvec : Trap → Option ℕ
unfolding read_tvec
read_mtvec t = read_tvec t.m_vector_base_address t.m_vector_mode

unfoldable pub write_mtvec : (value mask : ℕ) → Trap → Option Trap
unfolding write_tvec
write_mtvec value mask t =
    with_m_vector (write_tvec t.m_vector_base_address t.m_vector_mode value mask) t

unfoldable pub read_stvec : Trap → Option ℕ
unfolding read_tvec
read_stvec t = read_tvec t.s_vector_base_address t.s_vector_mode

unfoldable pub write_stvec : (value mask : ℕ) → Trap → Option Trap
unfolding write_tvec
write_stvec value mask t =
    with_s_vector (write_tvec t.s_vector_base_address t.s_vector_mode value mask) t

unfoldable pub write_mscratch : (value mask : ℕ) → Trap → Trap
write_mscratch value mask t = record t { mscratch = masked t.mscratch value mask }

unfoldable pub write_sscratch : (value mask : ℕ) → Trap → Trap
write_sscratch value mask t = record t { sscratch = masked t.sscratch value mask }

-- `*epc & !mask | value & mask & !0b11`, of `write_mepc` and of `write_sepc`.
unfoldable pub write_epc : (epc value mask : ℕ) → ℕ
write_epc epc value mask =
    bit_or (bit_and epc (not_u32 mask)) (bit_and (bit_and value mask) (not_u32 0b11))

unfoldable pub read_mcause : Trap → ℕ
unfolding read_cause
read_mcause t = read_cause t.last_m_trap_cause t.mcause_override

unfoldable pub write_mcause : (value mask : ℕ) → Trap → Trap
unfolding write_cause
write_mcause value mask t = record t {
  mcause_override = write_cause t.last_m_trap_cause t.mcause_override value mask;
}

-- The cause is that of the last trap into M-mode.
unfoldable pub read_scause : Trap → ℕ
unfolding read_cause
read_scause t = read_cause t.last_m_trap_cause t.scause_override

unfoldable pub write_scause : (value mask : ℕ) → Trap → Trap
unfolding write_cause
write_scause value mask t = record t {
  scause_override = write_cause t.last_s_trap_cause t.scause_override value mask;
}

unfoldable pub write_medeleg : (value mask : ℕ) → Trap → Trap
write_medeleg value mask t = record t {
  delegate_exception =
      bit_or (bit_and t.delegate_exception (not_u32 mask))
        (bit_and (bit_and value mask) delegatable_exceptions_mask);
}

unfoldable pub write_mtval : (value mask : ℕ) → Trap → Trap
write_mtval value mask t = record t { mtval = masked t.mtval value mask }

unfoldable pub write_mtval2 : (value mask : ℕ) → Trap → Trap
write_mtval2 value mask t = record t { mtval2 = masked t.mtval2 value mask }

unfoldable pub write_mtinst : (value mask : ℕ) → Trap → Trap
write_mtinst value mask t = record t { mtinst = masked t.mtinst value mask }

unfoldable pub write_stval : (value mask : ℕ) → Trap → Trap
write_stval value mask t = record t { stval = masked t.stval value mask }

abbrev pub satp_mode_bits : SatpMode → ℕ
satp_mode_bits SatpMode.bare = 0x0000_0000
satp_mode_bits SatpMode.sv32 = 0x8000_0000

unfoldable pub satp : Trap → ℕ
satp t = bit_or (bit_or (satp_mode_bits t.satp_mode) (u32 (t.satp_asid <<< 22))) t.satp_ppn

abbrev pub satp_mode_of : Bool → SatpMode
satp_mode_of false = SatpMode.bare
satp_mode_of true = SatpMode.sv32

-- The write of satp where TVM does not forbid it.
unfoldable pub store_satp : (value mask : ℕ) → Trap → Trap
unfolding satp
store_satp value mask t =
    let written = masked (satp t) value mask in
    record t {
      satp_mode = satp_mode_of (bit written 31);
      satp_asid = written / 2 ^ 22 % 2 ^ 9;
      satp_ppn = written % 2 ^ 22;
    }
