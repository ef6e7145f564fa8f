-- ===== src/Core/Mmu/Reference.antt =====
-- Sv32 as the privileged specification of RISC-V writes it, on numbers: which entries a translation
-- reads, when it faults, and where it leads. It is not taken from the program. A physical address is cut
-- to 32 bits, as the bus has no more.
use redplanet.Base.{
  ℕ, ◌+◌, ◌*◌, ◌/◌, ◌%◌, ◌^◌, ◌==◌, Bool, true, false, not, ◌&&◌, ◌||◌, bit, if◌then◌else◌,
}
use redplanet.Core.Machine.{MemoryError, access_fault, page_fault}
use redplanet.Core.State.{AccessType}

-- What the memory has at the address of an entry; a device may refuse the read, or panic.
pub data Fetch : Type 0 where
  word : ℕ → Fetch
  denied : Fetch
  lost : Fetch

pub data Verdict : Type 0 where
  fault : MemoryError → Verdict
  maps : (physical entry_address entry : ℕ) → Verdict
  broken : Verdict

-- Bits 0 to 4 of an entry are V, R, W, X and U.
abbrev pub is_valid : (entry : ℕ) → Bool
is_valid entry = bit entry 0 && (bit entry 1 || not (bit entry 2))

abbrev pub is_leaf : (entry : ℕ) → Bool
is_leaf entry = bit entry 1 || bit entry 3

abbrev pub type_permitted : (mxr : Bool) → AccessType → (entry : ℕ) → Bool
type_permitted mxr AccessType.read entry = bit entry 1 || mxr && bit entry 3
type_permitted mxr AccessType.write entry = bit entry 2
type_permitted mxr AccessType.execute entry = bit entry 3

-- S-mode reaches the pages of U-mode under SUM only, and never to execute.
abbrev pub mode_permitted : (user sum : Bool) → AccessType → (entry : ℕ) → Bool
mode_permitted true sum t entry = bit entry 4
mode_permitted false sum AccessType.execute entry = not (bit entry 4)
mode_permitted false sum t entry = not (bit entry 4) || sum

abbrev pub permitted : (user sum mxr : Bool) → AccessType → (entry : ℕ) → Bool
permitted user sum mxr t entry = type_permitted mxr t entry && mode_permitted user sum t entry

-- Of a table in the page `page` the entry that ten bits of the address select.
abbrev pub entry_in : (page index : ℕ) → ℕ
entry_in page index = page * 2 ^ 12 % 2 ^ 32 + index % 2 ^ 10 * 4

abbrev pub root_entry : (root address : ℕ) → ℕ
root_entry root address = entry_in root (address / 2 ^ 22)

abbrev pub next_entry : (entry address : ℕ) → ℕ
next_entry entry address = entry_in (entry / 2 ^ 10 % 2 ^ 22) (address / 2 ^ 12)

-- The virtual page number of a level. The specification gives the page in a megapage by that of level 0.
abbrev pub vpn : (level address : ℕ) → ℕ
vpn level address = address / 2 ^ (12 + level * 10) % 2 ^ 10

-- `frame` is the page in a megapage, a leaf of the root table.
module _ (user sum mxr : Bool) (t : AccessType) (address frame : ℕ) where
  abbrev pub page : (at entry : ℕ) → Verdict
  page at entry =
      if permitted user sum mxr t entry
      then maps (entry / 2 ^ 10 % 2 ^ 20 * 2 ^ 12 + address % 2 ^ 12) at entry
      else fault page_fault

  -- A megapage is of 4 MiB, and has to be aligned to them.
  abbrev pub megapage : (at entry : ℕ) → Verdict
  megapage at entry =
      if permitted user sum mxr t entry
      then (if entry / 2 ^ 10 % 2 ^ 10 == 0
          then maps (entry / 2 ^ 20 % 2 ^ 10 * 2 ^ 22 + frame * 2 ^ 12 + address % 2 ^ 12) at entry
          else fault page_fault)
      else fault page_fault

  abbrev pub last_level : (at : ℕ) → Fetch → Verdict
  last_level at denied = fault access_fault
  last_level at lost = broken
  last_level at (word entry) =
      if is_valid entry
      then (if is_leaf entry then page at entry else fault page_fault)
      else fault page_fault

  abbrev pub first_level : (memory : ℕ → Fetch) → (at : ℕ) → Fetch → Verdict
  first_level memory at denied = fault access_fault
  first_level memory at lost = broken
  first_level memory at (word entry) =
      if is_valid entry
      then (if is_leaf entry
          then megapage at entry
          else last_level (next_entry entry address) (memory (next_entry entry address)))
      else fault page_fault

  abbrev pub sv32 : (memory : ℕ → Fetch) → (root : ℕ) → Verdict
  sv32 memory root = first_level memory (root_entry root address) (memory (root_entry root address))
