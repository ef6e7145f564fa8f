-- ===== src/Core/Mmu/Laws.antt =====
-- What a translation of red-planet-core/src/core/mmu.rs comes to.
use redplanet.Base.{
  ℕ, ◌+◌, ◌%◌, ◌^◌, ◌≡◌, ◌≢◌, ◌∙◌, refl, arith, Bool, true, false, Option, none, some, List,
  if◌then◌else◌, bit_and, u32, ◌<<<◌, replicate,
}
use redplanet.Base.Bits.{bit_and_mask}
use redplanet.Privilege.{PrivilegeLevel}
use redplanet.Core.Machine.{Hart, Access, success, failure, crashed, of_bus, access_fault}
use redplanet.Core.Status.{mxr, sum}
use redplanet.Core.Trap.{SatpMode}
use redplanet.Core.State.{Rest, SystemBus, BusOutcome, accessed, bus_panicked, AccessType, settle}
use redplanet.Core.Csr.Read.{from_le_bytes}
use redplanet.Core.Mmu
use redplanet.Core.Mmu.Walk.{All, translate_common-All}
use redplanet.Core.Mmu.Reference
use redplanet.Core.Mmu.Reference.{Fetch, Verdict}
use redplanet.Core.Mmu.Agrees.{fetched, concluded, translate_mode-agrees}

module _ {B : Type 0} (bus : SystemBus B) where
  settle_lem :
      {A C : Type 0} (G : C → Hart (Rest B) → Type 0) (f : A → C) (address : ℕ) (t : AccessType)
      (h : Hart (Rest B)) (o : BusOutcome B A)
      → ((value : C) (h' : Hart (Rest B)) → G value h')
      → All (λ _. Unit {0}) G (Mmu.access_physical bus address 4 t h (settle f h o))
  settle_lem {A = A} G f address t h o k = go (bus.accepts address 4 t) o
    where
      go :
          (b : Bool) (o : BusOutcome B A)
          → All (λ _. Unit {0}) G (if b then settle f h o else failure access_fault h)
      go true (accessed value b calls) = k _ _
      go true bus_panicked = tt
      go false o = tt

  -- A translation that succeeds keeps the offset in the page, at any level, whatever the page tables;
  -- and a translation panics only where a device does.
  pub translate-keeps_offset :
      (address : ℕ) (t : AccessType) (level : PrivilegeLevel) (h : Hart (Rest B))
      → All
          (λ _. Unit {0})
          (λ physical _. physical % 2 ^ 12 ≡ address % 2 ^ 12)
          (Mmu.translate_address bus address t level h)
  unfolding Mmu.translate_address Mmu.read_pte Mmu.write_pte
  translate-keeps_offset address t level h =
      translate_common-All (λ _. Unit {0}) (λ _. Unit {0})
        (λ physical _. physical % 2 ^ 12 ≡ address % 2 ^ 12) address t (Mmu.read_pte bus)
        (Mmu.write_pte bus)
        (λ a h s. settle_lem (λ _ _. Unit {0} × Unit {0}) _ a AccessType.read h _ (λ _ _. (tt, tt)))
        (λ a value h s. settle_lem (λ _ _. Unit {0}) _ a AccessType.write h _ (λ _ _. tt))
        (λ user_mode entry ppn h h' e allowed s. kept ppn) level h refl tt
    where
      kept : (ppn : ℕ) → (u32 (ppn <<< 12) + bit_and address 0xFFF) % 2 ^ 12 ≡ address % 2 ^ 12
      kept ppn = omega (arith, bit_and_mask 12 address)

-- What the specification gives in the state of a hart, for a level other than M, with VPN[1] for the page
-- in a megapage.
abbrev pub verdict :
    {B : Type 0}
    → Hart (Rest B)
    → PrivilegeLevel
    → AccessType
    → (address : ℕ) → (memory : ℕ → Fetch) → Verdict
verdict h level t address memory =
    Reference.sv32 (is_user level) (sum h.status) (mxr h.status) t address (Reference.vpn 1 address)
      memory h.rest.trap.satp_ppn
  where
    is_user : PrivilegeLevel → Bool
    is_user PrivilegeLevel.user = true
    is_user PrivilegeLevel.supervisor = false
    is_user PrivilegeLevel.machine = false

module _ {B : Type 0} (bus : SystemBus B) (address : ℕ) (t : AccessType) (level : PrivilegeLevel)
    (h : Hart (Rest B)) where
  -- Under Sv32 in S- or U-mode, where the memory has the entries `memory`, and the read of the root entry
  -- and of the entry that it points to leave the state as it is, a translation gives the verdict of the
  -- specification: its fault, or its address, and where the A bit is clear, or the D bit is and the access
  -- is a write, the entry is written back first, with A set and with D set for a write and clear for
  -- others, and a write that the bus refuses is an access fault. But the page in a megapage is by VPN[1] of the address, where the specification has VPN[0].
  pub translate-sv32 :
      (memory : ℕ → Fetch)
      → level ≢ PrivilegeLevel.machine
      → h.rest.trap.satp_mode ≡ SatpMode.sv32
      → let root = Reference.root_entry h.rest.trap.satp_ppn address in
        Mmu.read_pte bus root h ≡ fetched h (memory root)
        → ((entry : ℕ)
            → memory root ≡ Fetch.word entry
            → Mmu.read_pte bus (Reference.next_entry entry address) h
              ≡ fetched h (memory (Reference.next_entry entry address)))
        → Mmu.translate_address bus address t level h
          ≡ concluded (Mmu.write_pte bus) h t (verdict h level t address memory)
  unfolding Mmu.translate_address Mmu.translate_address_common
  translate-sv32 memory ne mode e k = go level ne
    where
      go :
          (level : PrivilegeLevel)
          → level ≢ PrivilegeLevel.machine
          → Mmu.translate_address bus address t level h
            ≡ concluded (Mmu.write_pte bus) h t (verdict h level t address memory)
      go PrivilegeLevel.machine ne = absurd (ne refl)
      go PrivilegeLevel.supervisor ne =
          translate_mode-agrees (Mmu.read_pte bus) (Mmu.write_pte bus) h t false address memory mode
            e k
      go PrivilegeLevel.user ne =
          translate_mode-agrees (Mmu.read_pte bus) (Mmu.write_pte bus) h t true address memory mode
            e k

  -- What the devices show to a debugger at an address.
  abbrev pub shown_word : Option (List ℕ) → Fetch
  shown_word none = Fetch.lost
  shown_word (some bytes) = Fetch.word (from_le_bytes bytes)

  abbrev pub shown : (at : ℕ) → Fetch
  shown at =
      if bus.accepts at 4 AccessType.read
      then shown_word (bus.read_debug (replicate 4 0) at h.rest.bus)
      else Fetch.denied

  -- A verdict where no entry is updated.
  abbrev pub looked_up : Verdict → Access (Hart (Rest B)) ℕ
  looked_up (Verdict.fault e) = failure e h
  looked_up Verdict.broken = crashed of_bus
  looked_up (Verdict.maps physical at entry) = success physical h

  -- Under Sv32 in S- or U-mode, a translation for the debugger gives the verdict of the specification on
  -- the memory as the devices show it to a debugger, without the update of the A and D bits and with
  -- the state as it was; but the page in a megapage is by VPN[1] of the address.
  pub translate_debug-sv32 :
      level ≢ PrivilegeLevel.machine
      → h.rest.trap.satp_mode ≡ SatpMode.sv32
      → Mmu.translate_address_debug bus address t level h
        ≡ looked_up (verdict h level t address shown)
  unfolding Mmu.translate_address_debug Mmu.translate_address_common Mmu.read_pte_debug
  translate_debug-sv32 ne mode = go level ne
    where
      read : (at : ℕ) → Mmu.read_pte_debug bus at h ≡ fetched h (shown at)
      read at =
          settled (bus.accepts at 4 AccessType.read) (bus.read_debug (replicate 4 0) at h.rest.bus)
        where
          settled :
              (b : Bool) (o : Option (List ℕ))
              → (if b then Mmu.settle_debug bus from_le_bytes h o else failure access_fault h)
                ≡ fetched h (if b then shown_word o else Fetch.denied)
          settled true none = refl
          settled true (some bytes) = refl
          settled false o = refl

      no_update : (v : Verdict) → concluded (λ a value h. success tt h) h t v ≡ looked_up v
      no_update (Verdict.fault e) = refl
      no_update Verdict.broken = refl
      no_update (Verdict.maps physical at entry) = ground arith

      go :
          (level : PrivilegeLevel)
          → level ≢ PrivilegeLevel.machine
          → Mmu.translate_address_debug bus address t level h
            ≡ looked_up (verdict h level t address shown)
      go PrivilegeLevel.machine ne = absurd (ne refl)
      go PrivilegeLevel.supervisor ne =
          translate_mode-agrees (Mmu.read_pte_debug bus) (λ a value h. success tt h) h t false
            address shown mode (read _) (λ entry e. read _)
          ∙ no_update _
      go PrivilegeLevel.user ne =
          translate_mode-agrees (Mmu.read_pte_debug bus) (λ a value h. success tt h) h t true
            address shown mode (read _) (λ entry e. read _)
          ∙ no_update _
