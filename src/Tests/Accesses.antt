-- ===== src/Tests/Accesses.antt =====
-- The theorems on accesses to CSRs and on the translation of addresses, at the core of Tests/Whole.antt.
use redplanet.Base.{
  ℕ, Bool, false, ◌==◌, [], some, get_or, if◌then◌else◌, ◌%◌, ◌^◌, ◌≡◌, refl, arith, true,
}
use redplanet.Privilege.{PrivilegeLevel}
use redplanet.Core.Machine.{Hart, success}
use redplanet.Core.Trap.Entry
use redplanet.Core.State.{SystemBus, accessed, with_bus, Rest, Config, AccessType}
use redplanet.Core.State
use redplanet.Core.Csr.Read.{read_csr, from_le_bytes}
use redplanet.Core.Csr.Write.{write_csr}
use redplanet.Core.Csr.Laws as CsrLaws
use redplanet.Core.Mmu
use redplanet.Core.Mmu.Walk.{All}
use redplanet.Core.Mmu.Reference.{Fetch}
use redplanet.Core.Mmu.Agrees.{fetched}
use redplanet.Core.Mmu.Laws as MmuLaws
use redplanet.Tests.Whole.{byte_bus, config, start, user, load_page_fault}

-- mstatus from U-mode.
access-IsDenied_example :
    CsrLaws.IsDenied user.hart (read_csr config byte_bus 0x300 PrivilegeLevel.user user.hart)
    × CsrLaws.IsDenied user.hart (write_csr 0x300 PrivilegeLevel.user 1 1 user.hart)
access-IsDenied_example =
    CsrLaws.access-IsDenied user.hart config byte_bus 0x300 PrivilegeLevel.user 1 1 (omega arith)

-- A debug register, which is not there.
failure-IsUnchanged_example :
    CsrLaws.IsUnchanged start.hart
      (read_csr config byte_bus 0x7A0 PrivilegeLevel.machine start.hart)
    × CsrLaws.IsUnchanged start.hart (write_csr 0x7A0 PrivilegeLevel.machine 1 1 start.hart)
failure-IsUnchanged_example =
    CsrLaws.failure-IsUnchanged start.hart config byte_bus 0x7A0 PrivilegeLevel.machine 1 1

senvcfg-aliases_menvcfg_example :
    (read_csr config byte_bus 0x10A PrivilegeLevel.machine start.hart
      ≡ read_csr config byte_bus 0x30A PrivilegeLevel.machine start.hart)
    × (write_csr 0x10A PrivilegeLevel.machine 1 1 start.hart
        ≡ write_csr 0x30A PrivilegeLevel.machine 1 1 start.hart)
senvcfg-aliases_menvcfg_example = CsrLaws.senvcfg-aliases_menvcfg start.hart config byte_bus 1 1

scause-after_trap_example :
    read_csr config byte_bus 0x142 PrivilegeLevel.supervisor
      (Entry.trap_to_s_mode load_page_fault user).hart
    ≡ success 0 (Entry.trap_to_s_mode load_page_fault user).hart
unfolding user start State.new
scause-after_trap_example = CsrLaws.scause-after_trap config byte_bus load_page_fault user

-- The root table is at 0. Its entry of 0x8000_0000 points to the table at 0x1000, whose first entry lets
-- U-mode read and write the page 0x8000_0000, and has neither the A nor the D bit. A write is kept
-- by its first byte.
unfoldable pub tables : SystemBus ℕ
unfolding Mmu.to_le_bytes
tables = record {
  read = λ buf address b.
      accessed (Mmu.to_le_bytes 4 (if address == 0x800 then 0x401 else 0x2000_0017)) b [];
  read_debug =
      λ buf address b. some (Mmu.to_le_bytes 4 (if address == 0x800 then 0x401 else 0x2000_0017));
  write = λ address buf b. accessed tt (get_or buf 0 b) [];
  accepts = λ address size t. true;
}

-- The entry comes to have both bits.
abbrev updated : Hart (Rest ℕ)
updated = with_bus user.hart 0xD7 []

translates :
    Mmu.translate_address tables 0x8000_0123 AccessType.write PrivilegeLevel.user user.hart
    ≡ success 0x8000_0123 updated
unfolding Mmu.translate_address Mmu.translate_address_common Mmu.read_pte Mmu.write_pte tables user
    start State.new from_le_bytes Mmu.walk Mmu.follow Mmu.leaf Mmu.finish Mmu.is_allowed
    State.after_calls
translates = refl

translate-keeps_offset_example :
    All
      (λ _. Unit {0})
      (λ physical _. physical % 2 ^ 12 ≡ 0x8000_0123 % 2 ^ 12)
      (Mmu.translate_address tables 0x8000_0123 AccessType.write PrivilegeLevel.user user.hart)
translate-keeps_offset_example =
    MmuLaws.translate-keeps_offset tables 0x8000_0123 AccessType.write PrivilegeLevel.user user.hart

abbrev memory : ℕ → Fetch
memory at = Fetch.word (if at == 0x800 then 0x401 else 0x2000_0017)

reads : (at : ℕ) → Mmu.read_pte tables at user.hart ≡ fetched user.hart (memory at)
unfolding tables user start State.new from_le_bytes Mmu.read_pte State.after_calls
reads at = go (at == 0x800)
  where
    go :
        (b : Bool)
        → success (from_le_bytes (Mmu.to_le_bytes 4 (if b then 0x401 else 0x2000_0017))) user.hart
          ≡ fetched user.hart (Fetch.word (if b then 0x401 else 0x2000_0017))
    go true = refl
    go false = refl

translate-sv32_example :
    Mmu.translate_address tables 0x8000_0123 AccessType.write PrivilegeLevel.user user.hart
    ≡ success 0x8000_0123 updated
unfolding tables user start State.new from_le_bytes Mmu.read_pte Mmu.write_pte State.after_calls
translate-sv32_example =
    MmuLaws.translate-sv32 tables 0x8000_0123 AccessType.write PrivilegeLevel.user user.hart memory
      (λ e. cc e) refl (reads 0x800) (λ entry e. reads (Mmu.Reference.next_entry entry 0x8000_0123))

translate_debug-sv32_example :
    Mmu.translate_address_debug tables 0x8000_0123 AccessType.write PrivilegeLevel.user user.hart
    ≡ success 0x8000_0123 user.hart
unfolding tables user start State.new from_le_bytes
translate_debug-sv32_example =
    MmuLaws.translate_debug-sv32 tables 0x8000_0123 AccessType.write PrivilegeLevel.user user.hart
      (λ e. cc e) refl
