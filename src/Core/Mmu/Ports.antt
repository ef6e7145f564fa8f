-- ===== src/Core/Mmu/Ports.antt =====
-- The reads and writes of the memory management unit, red-planet-core/src/core/mmu.rs. The functions of
-- `access_fns!` take the size of their type in bytes.
use redplanet.Base.{
  ℕ, Bool, true, false, not, ◌&&◌, Option, none, some, List, [], ◌∷◌, if◌then◌else◌, get_or,
  replicate, length,
}
use mathlib.Core.List.{reverse}
use redplanet.Privilege.{PrivilegeLevel}
use redplanet.Alignment
use redplanet.Alignment.{Endianness}
use redplanet.Core.Machine.{
  of_core, Hart, Access, Machine, success, failure, crashed, misaligned_access,
}
use redplanet.Core.Status.{mprv, mpp, ube, sbe, mbe}
use redplanet.Core.State.{Rest, Config, SystemBus, AccessType, settle}
use redplanet.Core.Csr.Read.{from_le_bytes, read_csr}
use redplanet.Core.Csr.Write.{write_csr}
use redplanet.Core.Mmu.{
  access_physical, settle_debug, translate_address, translate_address_debug, to_le_bytes,
}

module _ {B : Type 0} where
  -- `none` for the panic on a reserved level in MPP.
  unfoldable pub effective_privilege_mode : Hart (Rest B) → Option PrivilegeLevel
  unfolding mprv mpp
  effective_privilege_mode h = if mprv h.status then mpp h.status else some h.privilege_mode

  abbrev pub is_big_endian : PrivilegeLevel → Hart (Rest B) → Bool
  unfolding ube sbe mbe
  is_big_endian PrivilegeLevel.user h = ube h.status
  is_big_endian PrivilegeLevel.supervisor h = sbe h.status
  is_big_endian PrivilegeLevel.machine h = mbe h.status

  unfoldable pub endianness : PrivilegeLevel → Hart (Rest B) → Endianness
  unfolding is_big_endian
  endianness privilege_mode h =
      if is_big_endian privilege_mode h then Endianness.be else Endianness.le

-- `from_le_bytes` or `from_be_bytes`
abbrev pub from_bytes : Endianness → List ℕ → ℕ
unfolding from_le_bytes
from_bytes Endianness.le buf = from_le_bytes buf
from_bytes Endianness.be buf = from_le_bytes (reverse buf)

abbrev pub to_bytes : Endianness → (size value : ℕ) → List ℕ
unfolding to_le_bytes
to_bytes Endianness.le size value = to_le_bytes size value
to_bytes Endianness.be size value = reverse (to_le_bytes size value)

module _ {B : Type 0} (config : Config) (bus : SystemBus B) where
  abbrev pub is_aligned_for : Option ℕ → (address : ℕ) → Bool
  unfolding Alignment.is_aligned
  is_aligned_for none address = false
  is_aligned_for (some alignment) address = Alignment.is_aligned alignment address

  -- Whether `access_virtual_pre_translate_checks` passes. A size that does not fit a `u32` is an
  -- access fault in the source; no caller has one.
  unfoldable pub passes_checks : (address size : ℕ) → Bool
  unfolding Alignment.natural_for_size is_aligned_for
  passes_checks address size = not (
      not config.support_misaligned_memory_access
      && not (is_aligned_for (Alignment.natural_for_size size) address))

  -- `access_physical` on the address that the translation gives.
  abbrev pub check_physical :
      (size : ℕ) → AccessType → Access (Hart (Rest B)) ℕ → Access (Hart (Rest B)) ℕ
  check_physical size access_type (success physical h) =
      access_physical bus physical size access_type h (success physical h)
  check_physical size access_type (failure e h) = failure e h
  check_physical size access_type (crashed p) = crashed p

  unfoldable pub access_virtual :
      (address size : ℕ) → AccessType → PrivilegeLevel → Hart (Rest B) → Access (Hart (Rest B)) ℕ
  unfolding passes_checks translate_address
  access_virtual address size access_type privilege_level h =
      if passes_checks address size
      then check_physical size access_type
          (translate_address bus address access_type privilege_level h)
      else failure misaligned_access h

  unfoldable pub access_virtual_debug :
      (address size : ℕ) → AccessType → PrivilegeLevel → Hart (Rest B) → Access (Hart (Rest B)) ℕ
  unfolding passes_checks translate_address_debug
  access_virtual_debug address size access_type privilege_level h =
      if passes_checks address size
      then check_physical size access_type
          (translate_address_debug bus address access_type privilege_level h)
      else failure misaligned_access h

  abbrev pub read_from : (size : ℕ) → Access (Hart (Rest B)) ℕ → Access (Hart (Rest B)) (List ℕ)
  read_from size (success physical h) =
      settle (λ buf. buf) h (bus.read (replicate size 0) physical h.rest.bus)
  read_from size (failure e h) = failure e h
  read_from size (crashed p) = crashed p

  abbrev pub access_of : (execute : Bool) → AccessType
  access_of true = AccessType.execute
  access_of false = AccessType.read

  -- A read into a buffer of `size` zeros.
  unfoldable pub read :
      (size address : ℕ)
      → PrivilegeLevel
      → (execute : Bool) → Hart (Rest B)
      → Access (Hart (Rest B)) (List ℕ)
  unfolding access_virtual
  read size address privilege_level execute h =
      read_from size (access_virtual address size (access_of execute) privilege_level h)

  abbrev pub read_debug_from :
      (buf : List ℕ) → Access (Hart (Rest B)) ℕ → Access (Hart (Rest B)) (List ℕ)
  read_debug_from buf (success physical h) =
      settle_debug bus (λ buf. buf) h (bus.read_debug buf physical h.rest.bus)
  read_debug_from buf (failure e h) = failure e h
  read_debug_from buf (crashed p) = crashed p

  -- The result is the buffer after the read.
  unfoldable pub read_debug :
      (buf : List ℕ)
      → (address : ℕ) → PrivilegeLevel
      → (execute : Bool) → Hart (Rest B)
      → Access (Hart (Rest B)) (List ℕ)
  unfolding access_virtual_debug
  read_debug buf address privilege_level execute h =
      read_debug_from buf
        (access_virtual_debug address (length buf) (access_of execute) privilege_level h)

  abbrev pub write_to :
      (buf : List ℕ) → Access (Hart (Rest B)) ℕ → Access (Hart (Rest B)) (Unit {0})
  write_to buf (success physical h) = settle (λ u. u) h (bus.write physical buf h.rest.bus)
  write_to buf (failure e h) = failure e h
  write_to buf (crashed p) = crashed p

  unfoldable pub write :
      (address size : ℕ)
      → (buf : List ℕ) → PrivilegeLevel
      → Hart (Rest B)
      → Access (Hart (Rest B)) (Unit {0})
  unfolding access_virtual
  write address size buf privilege_level h =
      write_to buf (access_virtual address size AccessType.write privilege_level h)

  abbrev pub decoded :
      (Hart (Rest B) → List ℕ → ℕ) → Access (Hart (Rest B)) (List ℕ) → Access (Hart (Rest B)) ℕ
  decoded f (success buf h) = success (f h buf) h
  decoded f (failure e h) = failure e h
  decoded f (crashed p) = crashed p

  abbrev pub read_at_level :
      (size address : ℕ) → Option PrivilegeLevel → Hart (Rest B) → Access (Hart (Rest B)) ℕ
  unfolding read endianness
  read_at_level size address none h = crashed of_core
  read_at_level size address (some level) h =
      decoded (λ h'. from_bytes (endianness level h')) (read size address level false h)

  abbrev pub read_debug_at_level :
      (size address : ℕ) → Option PrivilegeLevel → Hart (Rest B) → Access (Hart (Rest B)) ℕ
  unfolding read_debug endianness
  read_debug_at_level size address none h = crashed of_core
  read_debug_at_level size address (some level) h =
      decoded (λ h'. from_bytes (endianness level h'))
        (read_debug (replicate size 0) address level false h)

  abbrev pub write_at_level :
      (size address value : ℕ)
      → Option PrivilegeLevel
      → Hart (Rest B)
      → Access (Hart (Rest B)) (Unit {0})
  unfolding write endianness
  write_at_level size address value none h = crashed of_core
  write_at_level size address value (some level) h =
      write address size (to_bytes (endianness level h) size value) level h

  abbrev pub first_byte : List ℕ → ℕ
  first_byte buf = get_or buf 0 0

  abbrev pub read_byte_at_level :
      (address : ℕ) → Option PrivilegeLevel → Hart (Rest B) → Access (Hart (Rest B)) ℕ
  unfolding read
  read_byte_at_level address none h = crashed of_core
  read_byte_at_level address (some level) h =
      decoded (λ h'. first_byte) (read 1 address level false h)

  abbrev pub write_byte_at_level :
      (address value : ℕ)
      → Option PrivilegeLevel
      → Hart (Rest B)
      → Access (Hart (Rest B)) (Unit {0})
  unfolding write
  write_byte_at_level address value none h = crashed of_core
  write_byte_at_level address value (some level) h = write address 1 (value ∷ []) level h

  unfoldable pub read_byte : (address : ℕ) → Hart (Rest B) → Access (Hart (Rest B)) ℕ
  unfolding effective_privilege_mode read_byte_at_level
  read_byte address h = read_byte_at_level address (effective_privilege_mode h) h

  abbrev pub read_byte_debug_at_level :
      (address : ℕ) → Option PrivilegeLevel → Hart (Rest B) → Access (Hart (Rest B)) ℕ
  unfolding read_debug
  read_byte_debug_at_level address none h = crashed of_core
  read_byte_debug_at_level address (some level) h =
      decoded (λ h'. first_byte) (read_debug (0 ∷ []) address level false h)

  unfoldable pub read_byte_debug : (address : ℕ) → Hart (Rest B) → Access (Hart (Rest B)) ℕ
  unfolding effective_privilege_mode read_byte_debug_at_level
  read_byte_debug address h = read_byte_debug_at_level address (effective_privilege_mode h) h

  unfoldable pub write_byte :
      (address value : ℕ) → Hart (Rest B) → Access (Hart (Rest B)) (Unit {0})
  unfolding effective_privilege_mode write_byte_at_level
  write_byte address value h = write_byte_at_level address value (effective_privilege_mode h) h

  -- `$read_fn`, `$read_debug_fn` and `$write_fn`
  unfoldable pub read_value : (size address : ℕ) → Hart (Rest B) → Access (Hart (Rest B)) ℕ
  unfolding effective_privilege_mode read_at_level
  read_value size address h = read_at_level size address (effective_privilege_mode h) h

  unfoldable pub read_value_debug : (size address : ℕ) → Hart (Rest B) → Access (Hart (Rest B)) ℕ
  unfolding effective_privilege_mode read_debug_at_level
  read_value_debug size address h = read_debug_at_level size address (effective_privilege_mode h) h

  unfoldable pub write_value :
      (size address value : ℕ) → Hart (Rest B) → Access (Hart (Rest B)) (Unit {0})
  unfolding effective_privilege_mode write_at_level
  write_value size address value h =
      write_at_level size address value (effective_privilege_mode h) h

  -- `read_range` and `read_range_debug`: both read as the debugger does, at the privilege mode of the
  -- core and not at the effective one.
  unfoldable pub read_range :
      (buf : List ℕ) → (address : ℕ) → Hart (Rest B) → Access (Hart (Rest B)) (List ℕ)
  unfolding read_debug
  read_range buf address h = read_debug buf address h.privilege_mode false h

  unfoldable pub write_range :
      (buf : List ℕ) → (address : ℕ) → Hart (Rest B) → Access (Hart (Rest B)) (Unit {0})
  unfolding write
  write_range buf address h = write address (length buf) buf h.privilege_mode h

  abbrev pub instruction_alignment : ℕ
  instruction_alignment =
      if config.strict_instruction_alignment then Alignment.word else Alignment.halfword

  unfoldable pub fetch_instruction : (address : ℕ) → Hart (Rest B) → Access (Hart (Rest B)) ℕ
  unfolding Alignment.is_aligned read from_le_bytes
  fetch_instruction address h =
      if not (Alignment.is_aligned instruction_alignment address)
      then failure misaligned_access h
      else decoded (λ h'. from_le_bytes) (read 4 address h.privilege_mode true h)

  -- The memory management unit and the CSRs, as the executor takes them.
  abbrev pub machine : Machine (Rest B)
  machine = record {
    read_byte = read_byte;
    read_halfword = read_value 2;
    read_word = read_value 4;
    write_byte = write_byte;
    write_halfword = write_value 2;
    write_word = write_value 4;
    read_csr = read_csr config bus;
    write_csr = write_csr;
  }
