-- ===== src/Core/Mmu.antt =====
-- The memory management unit, red-planet-core/src/core/mmu.rs: the translation of virtual addresses by
-- Sv32. Its reads and writes are in Core/Mmu/Ports.antt. `crashed` is a panic.
pub mod Ports
pub mod Walk
pub mod Sound
pub mod Machine
pub mod Laws
pub mod Reference
pub mod Entries
pub mod Agrees
use redplanet.Base.{
  ℕ, zero, suc, ◌+◌, ◌-◌, ◌*◌, ◌/◌, ◌%◌, ◌^◌, ◌==◌, Bool, true, false, not, ◌&&◌, ◌||◌, Option,
  none, some, List, [], ◌∷◌, if◌then◌else◌, bit, set_bit, bit_and, bit_or, u32, ◌<<<◌, ◌>>>◌,
  replicate,
}
use redplanet.Privilege.{PrivilegeLevel}
use redplanet.Core.Machine.{
  of_core, of_bus, Hart, MemoryError, Access, success, failure, crashed, access_fault, page_fault,
}
use redplanet.Core.Status.{mxr, sum}
use redplanet.Core.Trap.{SatpMode}
use redplanet.Core.State.{Rest, SystemBus, AccessType, settle}
use redplanet.Core.Csr.Read.{from_le_bytes}

-- The fields of a page table entry.
abbrev pub v : ℕ
v = 0

abbrev pub r : ℕ
r = 1

abbrev pub w : ℕ
w = 2

abbrev pub x : ℕ
x = 3

abbrev pub u : ℕ
u = 4

abbrev pub a : ℕ
a = 6

abbrev pub d : ℕ
d = 7

abbrev pub ppn : (entry : ℕ) → ℕ
ppn entry = entry / 2 ^ 10 % 2 ^ 22

abbrev pub is_write : AccessType → Bool
is_write AccessType.write = true
is_write AccessType.read = false
is_write AccessType.execute = false

abbrev pub is_execute : AccessType → Bool
is_execute AccessType.execute = true
is_execute AccessType.read = false
is_execute AccessType.write = false

abbrev pub same_bool : Bool → Bool → Bool
same_bool true b = b
same_bool false b = not b

-- `u32::to_le_bytes`, of any number of bytes.
unfoldable pub to_le_bytes : (size value : ℕ) → List ℕ
to_le_bytes zero value = []
to_le_bytes (suc size) value = value % 2 ^ 8 ∷ to_le_bytes size (value / 2 ^ 8)

module _ {B : Type 0} where
  abbrev pub by_type : AccessType → (entry : ℕ) → Hart (Rest B) → Bool
  by_type AccessType.read entry h = bit entry r || bit entry x && mxr h.status
  by_type AccessType.write entry h = bit entry w
  by_type AccessType.execute entry h = bit entry x

  unfoldable pub is_allowed : AccessType → (user_mode : Bool) → (entry : ℕ) → Hart (Rest B) → Bool
  unfolding mxr sum
  is_allowed access_type user_mode entry h =
      by_type access_type entry h
      && (same_bool user_mode (bit entry u)
          || not user_mode && not (is_execute access_type) && sum h.status)

  abbrev pub fault_of_pte :
      {A : Type 0}
      → Access (Hart (Rest B)) A
      → (A → Hart (Rest B) → Access (Hart (Rest B)) ℕ)
      → Access (Hart (Rest B)) ℕ
  fault_of_pte (success value h) f = f value h
  fault_of_pte (failure e h) f = failure access_fault h
  fault_of_pte (crashed p) f = crashed p

  -- The two closures of `translate_address_common`: how an entry is read, and how it is written.
  module _ (read_pte : (address : ℕ) → Hart (Rest B) → Access (Hart (Rest B)) ℕ)
      (write_pte : (address value : ℕ) → Hart (Rest B) → Access (Hart (Rest B)) (Unit {0})) where
    -- Steps 7 and the result. The D bit is set to whether the access is a write.
    unfoldable pub finish :
        (address : ℕ)
        → AccessType
        → (entry_address entry ppn : ℕ) → Hart (Rest B)
        → Access (Hart (Rest B)) ℕ
    finish address access_type entry_address entry ppn h =
        let physical = u32 (ppn <<< 12) + bit_and address 0xFFF in
        if not (bit entry a) || is_write access_type && not (bit entry d)
        then fault_of_pte
            (write_pte entry_address (set_bit (set_bit entry a true) d (is_write access_type)) h)
            (λ _ h'. success physical h')
        else success physical h

    -- Steps 6 and 8, of a leaf at `level`.
    unfoldable pub leaf :
        (level address : ℕ)
        → AccessType
        → (vpn entry_address entry : ℕ) → Hart (Rest B)
        → Access (Hart (Rest B)) ℕ
    unfolding finish
    leaf level address access_type vpn entry_address entry h =
        if level == 0
        then finish address access_type entry_address entry (ppn entry) h
        else (let mask = 2 ^ (level * 10) - 1 in
            if not (bit_and (ppn entry) mask == 0)
            then failure page_fault h
            else finish address access_type entry_address entry
                (bit_or (ppn entry) (bit_and vpn mask)) h)

    -- Steps 3 to 5. `next` is the loop at the lower levels.
    unfoldable pub follow :
        (level address : ℕ)
        → AccessType
        → (user_mode : Bool) → (next : (page_table : ℕ) → Hart (Rest B) → Access (Hart (Rest B)) ℕ)
        → (vpn entry_address entry : ℕ) → Hart (Rest B)
        → Access (Hart (Rest B)) ℕ
    unfolding is_allowed leaf
    follow level address access_type user_mode next vpn entry_address entry h =
        if not (bit entry v) || not (bit entry r) && bit entry w
        then failure page_fault h
        else if not (bit entry r) && not (bit entry x)
        then (if level == 0 then failure page_fault h else next (u32 (ppn entry <<< 12)) h)
        else if not (is_allowed access_type user_mode entry h)
        then failure page_fault h
        else leaf level address access_type vpn entry_address entry h

    -- The loop over the levels that are left, from the highest on. The sum does not overflow: the
    -- page table is aligned to a page.
    unfoldable pub walk :
        (levels address : ℕ)
        → AccessType
        → (user_mode : Bool) → (page_table : ℕ) → Hart (Rest B)
        → Access (Hart (Rest B)) ℕ
    unfolding follow
    walk zero address access_type user_mode page_table h = crashed of_core
    walk (suc level) address access_type user_mode page_table h =
        let vpn = bit_and (address >>> (12 + level * 10)) 0x3FF in
        let entry_address = page_table + (vpn <<< 2) in
        fault_of_pte (read_pte entry_address h) (
          follow level address access_type user_mode (walk level address access_type user_mode) vpn
            entry_address)

    abbrev pub translate_mode :
        SatpMode
        → (address : ℕ) → AccessType
        → (user_mode : Bool) → Hart (Rest B)
        → Access (Hart (Rest B)) ℕ
    unfolding walk
    translate_mode SatpMode.bare address access_type user_mode h = success address h
    translate_mode SatpMode.sv32 address access_type user_mode h =
        walk 2 address access_type user_mode (u32 (h.rest.trap.satp_ppn <<< 12)) h

    unfoldable pub translate_address_common :
        (address : ℕ) → AccessType → PrivilegeLevel → Hart (Rest B) → Access (Hart (Rest B)) ℕ
    unfolding translate_mode
    translate_address_common address access_type PrivilegeLevel.machine h = success address h
    translate_address_common address access_type PrivilegeLevel.user h =
        translate_mode h.rest.trap.satp_mode address access_type true h
    translate_address_common address access_type PrivilegeLevel.supervisor h =
        translate_mode h.rest.trap.satp_mode address access_type false h

  module _ (bus : SystemBus B) where
    -- The error of an access that the bus does not accept.
    abbrev pub access_physical :
        {A : Type 0}
        → (address size : ℕ) → AccessType
        → Hart (Rest B)
        → Access (Hart (Rest B)) A
        → Access (Hart (Rest B)) A
    access_physical address size access_type h rest =
        if bus.accepts address size access_type then rest else failure access_fault h

    -- A debug read leaves the state, or panics.
    abbrev pub settle_debug :
        {A C : Type 0} → (A → C) → Hart (Rest B) → Option A → Access (Hart (Rest B)) C
    settle_debug f h none = crashed of_bus
    settle_debug f h (some value) = success (f value) h

    unfoldable pub read_pte : (address : ℕ) → Hart (Rest B) → Access (Hart (Rest B)) ℕ
    unfolding from_le_bytes
    read_pte address h =
        access_physical address 4 AccessType.read h
          (settle from_le_bytes h (bus.read (replicate 4 0) address h.rest.bus))

    unfoldable pub read_pte_debug : (address : ℕ) → Hart (Rest B) → Access (Hart (Rest B)) ℕ
    unfolding from_le_bytes
    read_pte_debug address h =
        access_physical address 4 AccessType.read h
          (settle_debug from_le_bytes h (bus.read_debug (replicate 4 0) address h.rest.bus))

    unfoldable pub write_pte :
        (address value : ℕ) → Hart (Rest B) → Access (Hart (Rest B)) (Unit {0})
    unfolding to_le_bytes
    write_pte address value h =
        access_physical address 4 AccessType.write h
          (settle (λ u. u) h (bus.write address (to_le_bytes 4 value) h.rest.bus))

    unfoldable pub translate_address :
        (address : ℕ) → AccessType → PrivilegeLevel → Hart (Rest B) → Access (Hart (Rest B)) ℕ
    unfolding translate_address_common read_pte write_pte
    translate_address = translate_address_common read_pte write_pte

    unfoldable pub translate_address_debug :
        (address : ℕ) → AccessType → PrivilegeLevel → Hart (Rest B) → Access (Hart (Rest B)) ℕ
    unfolding translate_address_common read_pte_debug
    translate_address_debug =
        translate_address_common read_pte_debug (λ address value h. success tt h)
