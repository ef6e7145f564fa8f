-- ===== src/Core/Execute/Memory.antt =====
-- The loads, stores and atomic instructions of red-planet-core/src/core/execute.rs.
use redplanet.Base.{
  ℕ, ◌+◌, ◌-◌, ◌^◌, not, ltb, if◌then◌else◌, bit_and, bit_or, bit_xor, wrapping_add, lt_i32, min,
  max, u8, u16,
}
use redplanet.Registers.{Specifier, set_x}
use redplanet.Core.Machine.{
  Hart, Core, Access, Machine, MemoryError, Outcome, success, failure, crashed,
}
use redplanet.Core.Execute.{is_word_aligned, with_registers, on_hart, load_op, store_op, amo_op}

-- `value as i8 as u32` and `value as i16 as u32`
abbrev pub extend_i8 : ℕ → ℕ
extend_i8 v = if ltb v (2 ^ 7) then v else v + 2 ^ 32 - 2 ^ 8

abbrev pub extend_i16 : ℕ → ℕ
extend_i16 v = if ltb v (2 ^ 15) then v else v + 2 ^ 32 - 2 ^ 16

abbrev pub map_access : {S A B : Type 0} → (A → B) → Access S A → Access S B
map_access f (success value s) = success (f value) s
map_access f (failure e s) = failure e s
map_access f (crashed p) = crashed p

-- A read or write of the memory management unit by the core.
abbrev pub reading :
    {W : Type 0} → (ℕ → Hart W → Access (Hart W) ℕ) → ℕ → Core W → Access (Core W) ℕ
reading read address c = on_hart c.registers (read address c.hart)

abbrev pub writing :
    {W : Type 0}
    → (ℕ → ℕ → Hart W → Access (Hart W) (Unit {0}))
    → ℕ
    → ℕ
    → Core W
    → Access (Core W) (Unit {0})
writing write address value c = on_hart c.registers (write address value c.hart)

module _ {W : Type 0} (m : Machine W) where
  unfoldable pub lb : (dest base : Specifier) (offset : ℕ) → Core W → Outcome W
  unfolding load_op
  lb dest base offset =
      load_op dest base offset (λ address c. map_access extend_i8 (reading m.read_byte address c))

  unfoldable pub lbu : (dest base : Specifier) (offset : ℕ) → Core W → Outcome W
  unfolding load_op
  lbu dest base offset = load_op dest base offset (λ address c. reading m.read_byte address c)

  unfoldable pub lh : (dest base : Specifier) (offset : ℕ) → Core W → Outcome W
  unfolding load_op
  lh dest base offset =
      load_op dest base offset
        (λ address c. map_access extend_i16 (reading m.read_halfword address c))

  unfoldable pub lhu : (dest base : Specifier) (offset : ℕ) → Core W → Outcome W
  unfolding load_op
  lhu dest base offset = load_op dest base offset (λ address c. reading m.read_halfword address c)

  unfoldable pub lw : (dest base : Specifier) (offset : ℕ) → Core W → Outcome W
  unfolding load_op
  lw dest base offset = load_op dest base offset (λ address c. reading m.read_word address c)

  unfoldable pub sb : (src base : Specifier) (offset : ℕ) → Core W → Outcome W
  unfolding store_op
  sb src base offset =
      store_op src base offset (λ address value c. writing m.write_byte address (u8 value) c)

  unfoldable pub sh : (src base : Specifier) (offset : ℕ) → Core W → Outcome W
  unfolding store_op
  sh src base offset =
      store_op src base offset (λ address value c. writing m.write_halfword address (u16 value) c)

  unfoldable pub sw : (src base : Specifier) (offset : ℕ) → Core W → Outcome W
  unfolding store_op
  sw src base offset =
      store_op src base offset (λ address value c. writing m.write_word address value c)

  -- The accesses of `lr` and of `sc`, which writes `dest` before it writes the memory.
  abbrev pub reserved_read : (address : ℕ) → Core W → Access (Core W) ℕ
  reserved_read address c =
      if not (is_word_aligned address)
      then failure MemoryError.misaligned_access c
      else reading m.read_word address c

  abbrev pub conditional_write :
      Specifier → (address value : ℕ) → Core W → Access (Core W) (Unit {0})
  conditional_write dest address value c =
      if not (is_word_aligned address)
      then failure MemoryError.misaligned_access c
      else writing m.write_word address value (with_registers c (set_x c.registers dest 0))

  unfoldable pub lr : (dest src addr : Specifier) → Core W → Outcome W
  unfolding load_op
  lr dest src addr = load_op dest addr 0 reserved_read

  unfoldable pub sc : (dest src addr : Specifier) → Core W → Outcome W
  unfolding store_op
  sc dest src addr = store_op src addr 0 (conditional_write dest)

  unfoldable pub amoswap : (dest src addr : Specifier) → Core W → Outcome W
  unfolding amo_op
  amoswap dest src addr = amo_op m dest src addr (λ _ reg. reg)

  unfoldable pub amoadd : (dest src addr : Specifier) → Core W → Outcome W
  unfolding amo_op
  amoadd dest src addr = amo_op m dest src addr (λ mem reg. wrapping_add mem reg)

  unfoldable pub amoand : (dest src addr : Specifier) → Core W → Outcome W
  unfolding amo_op
  amoand dest src addr = amo_op m dest src addr (λ mem reg. bit_and mem reg)

  unfoldable pub amoor : (dest src addr : Specifier) → Core W → Outcome W
  unfolding amo_op
  amoor dest src addr = amo_op m dest src addr (λ mem reg. bit_or mem reg)

  unfoldable pub amoxor : (dest src addr : Specifier) → Core W → Outcome W
  unfolding amo_op
  amoxor dest src addr = amo_op m dest src addr (λ mem reg. bit_xor mem reg)

  unfoldable pub amomax : (dest src addr : Specifier) → Core W → Outcome W
  unfolding amo_op
  amomax dest src addr = amo_op m dest src addr (λ mem reg. if lt_i32 mem reg then reg else mem)

  unfoldable pub amomin : (dest src addr : Specifier) → Core W → Outcome W
  unfolding amo_op
  amomin dest src addr = amo_op m dest src addr (λ mem reg. if lt_i32 reg mem then reg else mem)

  unfoldable pub amomaxu : (dest src addr : Specifier) → Core W → Outcome W
  unfolding amo_op
  amomaxu dest src addr = amo_op m dest src addr (λ mem reg. max mem reg)

  unfoldable pub amominu : (dest src addr : Specifier) → Core W → Outcome W
  unfolding amo_op
  amominu dest src addr = amo_op m dest src addr (λ mem reg. min mem reg)
