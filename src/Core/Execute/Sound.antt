-- ===== src/Core/Execute/Sound.antt =====
-- The invariant of the core that every instruction keeps, and what the memory management unit and
-- the CSRs have to do for that.
pub mod Generic
pub mod Accesses
pub mod Instructions
pub mod Stores
pub mod Every
use redplanet.Base.{
  ℕ, ◌+◌, ◌%◌, ◌^◌, ◌<◌, ◌≡◌, ◌≢◌, refl, arith, Bool, true, false, Option, none, some, ◌==◌,
  if◌then◌else◌, not, ltb, bit_and, Bool-cases, wrapping_add,
}
use redplanet.Base.Bits.{bit_and_mask}
use redplanet.Registers.{Registers, Specifier, x, set_x, set_pc, replace_x}
use redplanet.Registers.Laws.{IsValid, set_x-IsValid, set_pc-IsValid}
use redplanet.Core.Status.{Status}
use redplanet.Core.Status.Laws.{IsLegal}
use redplanet.Core.Machine.{
  Exception, MemoryError, Hart, Core, Access, Machine, Outcome, success, failure, crashed,
  CsrAccessError, CsrWriteError, Result, Panic, done, raised, panicked,
}
use redplanet.Core.Execute

-- An address that an instruction can stand at.
pub record IsCodeAddress (a : ℕ) : Type 0 where
  pub word : a < 2 ^ 32
  pub aligned : a % 4 ≡ 0

-- What an exception carries for the trap value registers is a word.
abbrev pub IsWordException : Exception → Type 0
IsWordException (Exception.instruction_address_misaligned a) = a < 2 ^ 32
IsWordException (Exception.instruction_access_fault a) = a < 2 ^ 32
IsWordException (Exception.illegal_instruction none) = Unit
IsWordException (Exception.illegal_instruction (some raw)) = raw < 2 ^ 32
IsWordException Exception.breakpoint = Unit
IsWordException (Exception.load_address_misaligned a) = a < 2 ^ 32
IsWordException (Exception.load_access_fault a) = a < 2 ^ 32
IsWordException (Exception.store_or_amo_address_misaligned a) = a < 2 ^ 32
IsWordException (Exception.store_or_amo_access_fault a) = a < 2 ^ 32
IsWordException Exception.environment_call_from_u_mode = Unit
IsWordException Exception.environment_call_from_s_mode = Unit
IsWordException Exception.environment_call_from_m_mode = Unit
IsWordException (Exception.instruction_page_fault a) = a < 2 ^ 32
IsWordException (Exception.load_page_fault a) = a < 2 ^ 32
IsWordException (Exception.store_or_amo_page_fault a) = a < 2 ^ 32

-- What the memory management unit and the CSRs need of the rest of the machine, and the panics that
-- they may end in.
pub record Contract (W : Type 0) : Type 1 where
  pub holds : W → Type 0
  pub allows : Panic → Type 0

module _ {W : Type 0} (R : Contract W) where
  pub record IsSoundHart (h : Hart W) : Type 0 where
    pub legal : IsLegal h.status
    pub sepc : IsCodeAddress h.sepc
    pub mepc : IsCodeAddress h.mepc
    pub rest : R.holds h.rest

  pub record IsSoundCore (c : Core W) : Type 0 where
    pub valid : IsValid c.registers
    pub pc : IsCodeAddress c.registers.pc
    pub hart : IsSoundHart c.hart

  abbrev pub IsSoundOutcome : Outcome W → Type 0
  IsSoundOutcome (done c) = IsSoundCore c
  IsSoundOutcome (raised e c) = IsWordException e × IsSoundCore c
  IsSoundOutcome (panicked p) = R.allows p

  -- A read gives a number below `bound`.
  abbrev pub IsSoundRead : ℕ → Access (Hart W) ℕ → Type 0
  IsSoundRead bound (success value h) = (value < bound) × IsSoundHart h
  IsSoundRead bound (failure e h) = IsSoundHart h
  IsSoundRead bound (crashed p) = R.allows p

  abbrev pub IsSoundWrite : Access (Hart W) (Unit {0}) → Type 0
  IsSoundWrite (success _ h) = IsSoundHart h
  IsSoundWrite (failure e h) = IsSoundHart h
  IsSoundWrite (crashed p) = R.allows p

  -- A read of the core gives a word, and the core stays sound.
  abbrev pub IsSoundLoad : Access (Core W) ℕ → Type 0
  IsSoundLoad (success value c) = (value < 2 ^ 32) × IsSoundCore c
  IsSoundLoad (failure e c) = IsSoundCore c
  IsSoundLoad (crashed p) = R.allows p

  abbrev pub IsSoundStore : Access (Core W) (Unit {0}) → Type 0
  IsSoundStore (success _ c) = IsSoundCore c
  IsSoundStore (failure e c) = IsSoundCore c
  IsSoundStore (crashed p) = R.allows p

  abbrev pub IsSoundCsrRead : Result CsrAccessError (Hart W) ℕ → Type 0
  IsSoundCsrRead (failure e h) = IsSoundHart h
  IsSoundCsrRead (crashed p) = R.allows p
  IsSoundCsrRead (success value h) = (value < 2 ^ 32) × IsSoundHart h

  abbrev pub IsSoundCsrWrite : Result CsrWriteError (Hart W) (Unit {0}) → Type 0
  IsSoundCsrWrite (failure e h) = IsSoundHart h
  IsSoundCsrWrite (crashed p) = R.allows p
  IsSoundCsrWrite (success _ h) = IsSoundHart h

  -- The memory management unit and the CSRs keep the invariant and read words of their width.
  pub record IsSoundMachine (m : Machine W) : Type 0 where
    pub byte_read : (a : ℕ) (h : Hart W) → IsSoundHart h → IsSoundRead (2 ^ 8) (m.read_byte a h)
    pub halfword_read :
        (a : ℕ) (h : Hart W) → IsSoundHart h → IsSoundRead (2 ^ 16) (m.read_halfword a h)
    pub word_read : (a : ℕ) (h : Hart W) → IsSoundHart h → IsSoundRead (2 ^ 32) (m.read_word a h)
    pub byte_written :
        (a v : ℕ) (h : Hart W) → v < 2 ^ 8 → IsSoundHart h → IsSoundWrite (m.write_byte a v h)
    pub halfword_written :
        (a v : ℕ) (h : Hart W) → v < 2 ^ 16 → IsSoundHart h → IsSoundWrite (m.write_halfword a v h)
    pub word_written :
        (a v : ℕ) (h : Hart W) → v < 2 ^ 32 → IsSoundHart h → IsSoundWrite (m.write_word a v h)
    pub csr_read :
        (csr : ℕ) (level : _) (h : Hart W) → IsSoundHart h → IsSoundCsrRead (m.read_csr csr level h)
    pub csr_written :
        (csr : ℕ) (level : _) (value mask : ℕ) (h : Hart W)
        → value < 2 ^ 32
        → mask < 2 ^ 32
        → IsSoundHart h
        → IsSoundCsrWrite (m.write_csr csr level value mask h)

pub set_x-pc : (r : Registers) (s : Specifier) (v : ℕ) → (set_x r s v).pc ≡ r.pc
set_x-pc r s v = unfold set_x in ground arith

next_address : (a : ℕ) → IsCodeAddress a → IsCodeAddress (wrapping_add a 4)
next_address a h = record { word = omega arith; aligned = omega (arith, h.aligned) }

module _ {W : Type 0} {R : Contract W} where
  pub next-IsSound :
      (r : Registers) (c : Core W)
      → IsValid r
      → IsCodeAddress r.pc
      → IsSoundHart R c.hart
      → IsSoundOutcome R (Execute.next r c)
  unfolding Execute.increment_pc set_pc
  next-IsSound r c v a h = record {
    valid = set_pc-IsValid r _ v;
    pc = next_address r.pc a;
    hart = h;
  }

  -- The instruction's result goes to a register.
  pub write-IsSound :
      (c : Core W) (dest : Specifier) (v : ℕ)
      → IsSoundCore R c
      → dest < 32
      → v < 2 ^ 32
      → IsSoundOutcome R (Execute.next (set_x c.registers dest v) c)
  write-IsSound c dest v s hd hv =
      next-IsSound (set_x c.registers dest v) c (set_x-IsValid c.registers dest v s.valid hd hv)
        (rw (set_x-pc c.registers dest v) s.pc) s.hart
