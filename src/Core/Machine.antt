-- ===== src/Core/Machine.antt =====
-- What the executor of red-planet-core/src/core/execute.rs runs on: the registers, the parts of the
-- core that it reads and writes itself, and the memory management unit (core/mmu.rs) and the CSRs
-- (core/csr.rs and `read_csr`, `write_csr` of core/mod.rs) behind an interface. `W` is the rest of
-- the machine: memory, devices, and the CSRs that the executor reaches only by their numbers.
use redplanet.Base.{ℕ, Option}
use redplanet.Registers.{Registers}
use redplanet.Privilege.{RawPrivilegeLevel, PrivilegeLevel}
use redplanet.Instruction.Types.{CsrSpecifier}
use redplanet.Core.Status.{Status}

pub data Exception : Type 0 where
  instruction_address_misaligned instruction_access_fault : ℕ → Exception
  illegal_instruction : Option ℕ → Exception
  breakpoint : Exception
  load_address_misaligned load_access_fault : ℕ → Exception
  store_or_amo_address_misaligned store_or_amo_access_fault : ℕ → Exception
  environment_call_from_u_mode environment_call_from_s_mode : Exception
  environment_call_from_m_mode : Exception
  instruction_page_fault load_page_fault store_or_amo_page_fault : ℕ → Exception

pub data MemoryError : Type 0 where
  misaligned_access access_fault page_fault : MemoryError

-- The text that `CsrUnavailable` carries is left out.
pub data CsrAccessError : Type 0 where
  csr_unsupported : CsrSpecifier → CsrAccessError
  privileged : (specifier : CsrSpecifier) → RawPrivilegeLevel → PrivilegeLevel → CsrAccessError
  csr_unavailable : CsrSpecifier → CsrAccessError

pub data CsrWriteError : Type 0 where
  access_error : CsrAccessError → CsrWriteError
  write_to_read_only : CsrWriteError

-- Everything of the core but its registers.
pub record Hart (W : Type 0) : Type 0 where
  pub privilege_mode : PrivilegeLevel
  pub status : Status
  pub sepc : ℕ
  pub mepc : ℕ
  pub rest : W

pub record Core (W : Type 0) : Type 0 where
  pub registers : Registers
  pub hart : Hart W

-- Where a panic comes from: the core, or a device that is behind the bus.
pub data Panic : Type 0 where
  of_core of_bus : Panic

-- A `Result` and the state that the call leaves, on success and on failure, or a panic.
pub data Result (E S A : Type 0) : Type 0 where
  success : A → S → Result E S A
  failure : E → S → Result E S A
  crashed : Panic → Result E S A

abbrev pub Access : (S A : Type 0) → Type 0
Access = Result MemoryError

-- `Mmu` and the CSRs. They never touch the registers.
pub record Machine (W : Type 0) : Type 0 where
  pub read_byte : ℕ → Hart W → Access (Hart W) ℕ
  pub read_halfword : ℕ → Hart W → Access (Hart W) ℕ
  pub read_word : ℕ → Hart W → Access (Hart W) ℕ
  pub write_byte : (address value : ℕ) → Hart W → Access (Hart W) (Unit {0})
  pub write_halfword : (address value : ℕ) → Hart W → Access (Hart W) (Unit {0})
  pub write_word : (address value : ℕ) → Hart W → Access (Hart W) (Unit {0})
  pub read_csr : CsrSpecifier → PrivilegeLevel → Hart W → Result CsrAccessError (Hart W) ℕ
  pub write_csr :
      CsrSpecifier
      → PrivilegeLevel
      → (value mask : ℕ) → Hart W
      → Result CsrWriteError (Hart W) (Unit {0})

-- `ExecutionResult` with the state it leaves, or a panic.
pub data Outcome (W : Type 0) : Type 0 where
  done : Core W → Outcome W
  raised : Exception → Core W → Outcome W
  panicked : Panic → Outcome W
