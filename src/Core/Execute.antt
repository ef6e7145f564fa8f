-- ===== src/Core/Execute.antt =====
-- The generic implementations that the instructions share, the private half of
-- red-planet-core/src/core/execute.rs.
pub mod Arithmetic
pub mod Memory
pub mod System
pub mod Dispatch
pub mod Sound
pub mod Precise
pub mod Exceptions
pub mod Returns
use redplanet.Base.{
  ℕ, ◌<◌, ◌^◌, ◌==◌, Bool, true, false, not, ◌||◌, if◌then◌else◌, ltb, Option, some, none, bit_and,
  wrapping_add,
}
use redplanet.Registers.{Registers, Specifier, x, set_x, set_pc}
use redplanet.Instruction.Types.{CsrOp, CsrSpecifier}
use redplanet.Privilege.{PrivilegeLevel}
use redplanet.Core.Machine.{
  of_core, Exception, MemoryError, Hart, Core, Access, Machine, Outcome, success, failure, crashed,
  CsrAccessError, CsrWriteError, Result, done, raised, panicked,
}

-- `Alignment::WORD.is_aligned(address)`
abbrev pub is_word_aligned : ℕ → Bool
is_word_aligned address = bit_and address 3 == 0

unfoldable pub increment_pc : Registers → Registers
increment_pc r = set_pc r (wrapping_add r.pc 4)

abbrev pub load_error : ℕ → MemoryError → Exception
load_error address MemoryError.misaligned_access = Exception.load_address_misaligned address
load_error address MemoryError.access_fault = Exception.load_access_fault address
load_error address MemoryError.page_fault = Exception.load_page_fault address

abbrev pub store_error : ℕ → MemoryError → Exception
store_error address MemoryError.misaligned_access =
    Exception.store_or_amo_address_misaligned address
store_error address MemoryError.access_fault = Exception.store_or_amo_access_fault address
store_error address MemoryError.page_fault = Exception.store_or_amo_page_fault address

-- The errors of `amo_op`: those of a load, except the page fault.
abbrev pub amo_error : ℕ → MemoryError → Exception
amo_error address MemoryError.misaligned_access = Exception.load_address_misaligned address
amo_error address MemoryError.access_fault = Exception.load_access_fault address
amo_error address MemoryError.page_fault = Exception.store_or_amo_page_fault address

module _ {W : Type 0} where
  abbrev pub with_registers : Core W → Registers → Core W
  with_registers c r = record c { registers = r }

  -- The end of every instruction that does not jump.
  abbrev pub next : Registers → Core W → Outcome W
  unfolding increment_pc
  next r c = done (with_registers c (increment_pc r))

  unfoldable pub reg_imm_op : Specifier → Specifier → ℕ → (ℕ → ℕ → ℕ) → Core W → Outcome W
  unfolding increment_pc
  reg_imm_op dest src immediate op c =
      next (set_x c.registers dest (op (x c.registers src) immediate)) c

  unfoldable pub reg_shamt_op : Specifier → Specifier → ℕ → (ℕ → ℕ → ℕ) → Core W → Outcome W
  unfolding increment_pc
  reg_shamt_op dest src shift_amount_u5 op c =
      if ltb 31 shift_amount_u5
      then (panicked of_core)
      else next (set_x c.registers dest (op (x c.registers src) shift_amount_u5)) c

  unfoldable pub reg_reg_op : Specifier → Specifier → Specifier → (ℕ → ℕ → ℕ) → Core W → Outcome W
  unfolding increment_pc
  reg_reg_op dest src1 src2 op c =
      next (set_x c.registers dest (op (x c.registers src1) (x c.registers src2))) c

  unfoldable pub jump_op : Specifier → (Registers → ℕ) → Core W → Outcome W
  jump_op dest compute_target c =
      let new_pc = compute_target c.registers in
      if not (is_word_aligned new_pc)
      then raised (Exception.instruction_address_misaligned new_pc) c
      else done (
          with_registers c (set_x (set_pc c.registers new_pc) dest (wrapping_add c.registers.pc 4)))

  unfoldable pub cond_branch : Specifier → Specifier → ℕ → (ℕ → ℕ → Bool) → Core W → Outcome W
  unfolding increment_pc
  cond_branch src1 src2 offset predicate c =
      let new_pc = wrapping_add c.registers.pc offset in
      if predicate (x c.registers src1) (x c.registers src2)
      then (if not (is_word_aligned new_pc)
          then raised (Exception.instruction_address_misaligned new_pc) c
          else done (with_registers c (set_pc c.registers new_pc)))
      else next c.registers c

  abbrev pub after_load : Specifier → ℕ → Access (Core W) ℕ → Outcome W
  unfolding increment_pc
  after_load dest address (failure e c) = raised (load_error address e) c
  after_load dest address (crashed p) = panicked p
  after_load dest address (success value c) = next (set_x c.registers dest value) c

  unfoldable pub load_op :
      Specifier → Specifier → ℕ → (ℕ → Core W → Access (Core W) ℕ) → Core W → Outcome W
  unfolding after_load
  load_op dest base offset op c =
      let address = wrapping_add (x c.registers base) offset in
      after_load dest address (op address c)

  abbrev pub after_store : ℕ → Access (Core W) (Unit {0}) → Outcome W
  unfolding increment_pc
  after_store address (failure e c) = raised (store_error address e) c
  after_store address (crashed p) = panicked p
  after_store address (success _ c) = next c.registers c

  unfoldable pub store_op :
      Specifier
      → Specifier
      → ℕ
      → ((address value : ℕ) → Core W → Access (Core W) (Unit {0}))
      → Core W
      → Outcome W
  unfolding after_store
  store_op src base offset op c =
      let value = x c.registers src in
      let address = wrapping_add (x c.registers base) offset in
      after_store address (op address value c)

-- An access of the memory management unit, which leaves the registers alone.
abbrev pub on_hart : {W A : Type 0} → Registers → Access (Hart W) A → Access (Core W) A
on_hart r (success value h) = success value (record { registers = r; hart = h })
on_hart r (crashed p) = crashed p
on_hart r (failure e h) = failure e (record { registers = r; hart = h })

abbrev pub is_read_write : CsrOp → Bool
is_read_write CsrOp.read_write = true
is_read_write CsrOp.read_set = false
is_read_write CsrOp.read_clear = false

-- The value and the mask that a CSR instruction writes.
abbrev pub csr_operands : CsrOp → ℕ → ℕ × ℕ
csr_operands CsrOp.read_write src_value = (src_value, 0xFFFF_FFFF)
csr_operands CsrOp.read_set src_value = (0xFFFF_FFFF, src_value)
csr_operands CsrOp.read_clear src_value = (0x0000_0000, src_value)

module _ {W : Type 0} (m : Machine W) where
  abbrev pub amo_written : Specifier → ℕ → ℕ → Access (Core W) (Unit {0}) → Outcome W
  unfolding increment_pc
  amo_written dest address mem_value (failure e c) = raised (amo_error address e) c
  amo_written dest address mem_value (crashed p) = panicked p
  amo_written dest address mem_value (success _ c) = next (set_x c.registers dest mem_value) c

  abbrev pub amo_read : Specifier → ℕ → ℕ → (ℕ → ℕ → ℕ) → Access (Core W) ℕ → Outcome W
  unfolding amo_written
  amo_read dest address src_value op (failure e c) = raised (amo_error address e) c
  amo_read dest address src_value op (crashed p) = panicked p
  amo_read dest address src_value op (success mem_value c) =
      amo_written dest address mem_value
        (on_hart c.registers (m.write_word address (op mem_value src_value) c.hart))

  unfoldable pub amo_op : Specifier → Specifier → Specifier → (ℕ → ℕ → ℕ) → Core W → Outcome W
  unfolding amo_read
  amo_op dest src addr op c =
      let address = x c.registers addr in
      if not (is_word_aligned address)
      then raised (Exception.load_address_misaligned address) c
      else amo_read dest address (x c.registers src) op
          (on_hart c.registers (m.read_word address c.hart))

  abbrev pub csr_written : Result CsrWriteError (Hart W) (Unit {0}) → Registers → Outcome W
  unfolding increment_pc
  csr_written (success _ h) r = done (record { registers = increment_pc r; hart = h })
  csr_written (crashed p) r = panicked p
  csr_written (failure e h) r =
      raised (Exception.illegal_instruction none) (record { registers = r; hart = h })

  -- The second half of `csr_op`.
  abbrev pub csr_store :
      CsrOp → CsrSpecifier → Option ℕ → PrivilegeLevel → Registers → Hart W → Outcome W
  unfolding csr_written
  csr_store op csr none level r h = done (record { registers = increment_pc r; hart = h })
  csr_store op csr (some v) level r h =
      let (value, mask) = csr_operands op v in csr_written (m.write_csr csr level value mask h) r

  abbrev pub csr_loaded :
      CsrOp
      → Specifier
      → CsrSpecifier
      → Option ℕ
      → PrivilegeLevel
      → Registers
      → Result CsrAccessError (Hart W) ℕ
      → Outcome W
  unfolding csr_store
  csr_loaded op dest csr src_value level r (crashed p) = panicked p
  csr_loaded op dest csr src_value level r (failure e h) =
      raised (Exception.illegal_instruction none) (record { registers = r; hart = h })
  csr_loaded op dest csr src_value level r (success old_value h) =
      csr_store op csr src_value level (set_x r dest old_value) h

  unfoldable pub csr_op : CsrOp → Specifier → CsrSpecifier → Option ℕ → Core W → Outcome W
  unfolding csr_loaded csr_store
  csr_op op dest csr src_value c =
      let level = c.hart.privilege_mode in
      if not (is_read_write op) || not (dest == 0)
      then csr_loaded op dest csr src_value level c.registers (m.read_csr csr level c.hart)
      else csr_store op csr src_value level c.registers c.hart

  unfoldable pub csr_reg_op : CsrOp → Specifier → CsrSpecifier → Specifier → Core W → Outcome W
  unfolding csr_op
  csr_reg_op op dest csr src c =
      csr_op op dest csr
        (if is_read_write op || not (src == 0) then some (x c.registers src) else none) c

  unfoldable pub csr_imm_op : CsrOp → Specifier → CsrSpecifier → ℕ → Core W → Outcome W
  unfolding csr_op
  csr_imm_op op dest csr immediate c =
      csr_op op dest csr (if is_read_write op || not (immediate == 0) then some immediate else none)
        c
