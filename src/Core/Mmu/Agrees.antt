-- ===== src/Core/Mmu/Agrees.antt =====
-- The walk of the page tables of red-planet-core/src/core/mmu.rs gives what Core/Mmu/Reference.antt says.
use redplanet.Base.{
  ℕ, ◌+◌, ◌-◌, ◌/◌, ◌%◌, ◌^◌, ◌≡◌, ◌∙◌, ◌==◌, refl, arith, ap, Bool, true, false, not, ◌&&◌, ◌||◌,
  if◌then◌else◌, bit, set_bit, bit_and, u32, ◌<<<◌, ◌>>>◌,
}
use redplanet.Base.Bits.{bit_and_mask}
use redplanet.Core.Machine.{
  Hart, Access, success, failure, crashed, of_bus, access_fault, page_fault,
}
use redplanet.Core.Status.{mxr, sum}
use redplanet.Core.Trap.{SatpMode}
use redplanet.Core.State.{Rest, AccessType}
use redplanet.Core.Mmu
use redplanet.Core.Mmu.Reference
use redplanet.Core.Mmu.Reference.{Fetch, Verdict}
use redplanet.Core.Mmu.Entries.{
  kinds, permitted-is_allowed, small_page, large_page, root_entry_lem, next_entry_lem, branch,
  unless,
}

-- The read of an entry that leaves the state as it is.
abbrev pub fetched : {B : Type 0} → Hart (Rest B) → Fetch → Access (Hart (Rest B)) ℕ
fetched h (Fetch.word entry) = success entry h
fetched h Fetch.denied = failure access_fault h
fetched h Fetch.lost = crashed of_bus

-- The A bit, and the D bit of a write, have to be set before the access.
abbrev pub is_current : AccessType → (entry : ℕ) → Bool
is_current t entry = bit entry 6 && (not (Mmu.is_write t) || bit entry 7)

-- What a verdict comes to in the state `h`.
abbrev pub concluded :
    {B : Type 0}
    → ((address value : ℕ) → Hart (Rest B) → Access (Hart (Rest B)) (Unit {0}))
    → Hart (Rest B)
    → AccessType
    → Verdict
    → Access (Hart (Rest B)) ℕ
concluded write_pte h t (Verdict.fault e) = failure e h
concluded write_pte h t Verdict.broken = crashed of_bus
concluded write_pte h t (Verdict.maps physical at entry) =
    if is_current t entry
    then success physical h
    else Mmu.fault_of_pte (write_pte at (set_bit (set_bit entry 6 true) 7 (Mmu.is_write t)) h)
        (λ _ h'. success physical h')

module _ {B : Type 0} (read_pte : (address : ℕ) → Hart (Rest B) → Access (Hart (Rest B)) ℕ)
    (write_pte : (address value : ℕ) → Hart (Rest B) → Access (Hart (Rest B)) (Unit {0}))
    (h : Hart (Rest B)) where
  module _ (t : AccessType) (user : Bool) (address : ℕ) where
    finish-agrees :
        (at entry ppn physical : ℕ)
        → u32 (ppn <<< 12) + bit_and address 0xFFF ≡ physical
        → Mmu.finish read_pte write_pte address t at entry ppn h
          ≡ concluded write_pte h t (Verdict.maps physical at entry)
    unfolding Mmu.finish
    finish-agrees at entry ppn physical e =
        rw e (flip (bit entry 6) (Mmu.is_write t) (bit entry 7) _ _)
      where
        flip :
            {A : Type 0} (a w d : Bool) (x y : A)
            → (if not a || w && not d then x else y) ≡ (if a && (not w || d) then y else x)
        flip false w d x y = refl
        flip true false d x y = refl
        flip true true true x y = refl
        flip true true false x y = refl

    leaf_small :
        (vpn at entry : ℕ)
        → (if not (Mmu.is_allowed t user entry h)
            then failure page_fault h
            else Mmu.leaf read_pte write_pte 0 address t vpn at entry h)
          ≡ concluded write_pte h t (
              Reference.page user
                (sum h.status)
                (mxr h.status)
                t
                address
                (Reference.vpn 1 address)
                at
                entry)
    unfolding Mmu.leaf
    leaf_small vpn at entry =
        unless (concluded write_pte h t) _ _ _ _ _ _ (permitted-is_allowed t user entry h) refl
          (λ _. finish-agrees at entry (Mmu.ppn entry) _ (small_page entry address))

    leaf_large :
        (at entry : ℕ)
        → (if not (Mmu.is_allowed t user entry h)
            then failure page_fault h
            else Mmu.leaf read_pte write_pte 1 address t
                (bit_and (address >>> 22) 0x3FF)
                at
                entry
                h)
          ≡ concluded write_pte h t (
              Reference.megapage user
                (sum h.status)
                (mxr h.status)
                t
                address
                (Reference.vpn 1 address)
                at
                entry)
    unfolding Mmu.leaf
    leaf_large at entry =
        unless (concluded write_pte h t) _ _ _ _ _ _ (permitted-is_allowed t user entry h) refl
          (λ _.
            unless (concluded write_pte h t) _ _ _ _ _ _ (same_test entry) refl
              (λ e. finish-agrees at entry _ _ (large_page entry address (is_zero _ e))))
      where
        same_test :
            (entry : ℕ)
            → (bit_and (Mmu.ppn entry) (2 ^ 10 - 1) == 0) ≡ (entry / 2 ^ 10 % 2 ^ 10 == 0)
        same_test entry = rw (bit_and_mask 10 (Mmu.ppn entry)) (ap (λ n. n == 0) (omega arith))

        is_zero : (n : ℕ) → (n == 0) ≡ true → n ≡ 0
        is_zero n e = ground arith

    last_level-agrees :
        (vpn at : ℕ) (next : (page_table : ℕ) → Hart (Rest B) → Access (Hart (Rest B)) ℕ)
        (f : Fetch)
        → read_pte at h ≡ fetched h f
        → Mmu.fault_of_pte
            (read_pte at h)
            (Mmu.follow read_pte write_pte 0 address t user next vpn at)
          ≡ concluded write_pte h t (
              Reference.last_level user
                (sum h.status)
                (mxr h.status)
                t
                address
                (Reference.vpn 1 address)
                at
                f)
    unfolding Mmu.follow
    last_level-agrees vpn at next Fetch.denied e = rw e refl
    last_level-agrees vpn at next Fetch.lost e = rw e refl
    last_level-agrees vpn at next (Fetch.word entry) e = rw e (
        kinds (bit entry 0) (bit entry 1) (bit entry 2) (bit entry 3) _ _ _
        ∙ branch (concluded write_pte h t) (Reference.is_valid entry) _ _
            (if Reference.is_leaf entry then found else none_found) none_found
            (branch (concluded write_pte h t) (Reference.is_leaf entry) _ _ found none_found
              (leaf_small vpn at entry) refl)
            refl)
      where
        found : Verdict
        found =
            Reference.page user (sum h.status) (mxr h.status) t address (Reference.vpn 1 address) at
              entry

        none_found : Verdict
        none_found = Verdict.fault page_fault

    walk-agrees :
        (root : ℕ) (memory : ℕ → Fetch) (f : Fetch)
        → read_pte (Reference.root_entry root address) h ≡ fetched h f
        → ((entry : ℕ)
            → f ≡ Fetch.word entry
            → read_pte (Reference.next_entry entry address) h
              ≡ fetched h (memory (Reference.next_entry entry address)))
        → Mmu.walk read_pte write_pte 2 address t user (u32 (root <<< 12)) h
          ≡ concluded write_pte h t (
              Reference.first_level user
                (sum h.status)
                (mxr h.status)
                t
                address
                (Reference.vpn 1 address)
                memory
                (Reference.root_entry root address)
                f)
    unfolding Mmu.walk Mmu.follow
    walk-agrees root memory Fetch.denied e k = rw (root_entry_lem root address, e) refl
    walk-agrees root memory Fetch.lost e k = rw (root_entry_lem root address, e) refl
    walk-agrees root memory (Fetch.word entry) e k =
        rw (root_entry_lem root address, e)
          (kinds (bit entry 0) (bit entry 1) (bit entry 2) (bit entry 3) _ _ _
            ∙ branch (concluded write_pte h t) (Reference.is_valid entry) _ _
                (if Reference.is_leaf entry then found else lower) (Verdict.fault page_fault)
                (branch (concluded write_pte h t) (Reference.is_leaf entry) _ _ found lower
                  (leaf_large _ entry) below)
                refl)
      where
        found : Verdict
        found =
            Reference.megapage user (sum h.status) (mxr h.status) t address
              (Reference.vpn 1 address) (Reference.root_entry root address) entry

        lower : Verdict
        lower =
            Reference.last_level user (sum h.status) (mxr h.status) t address
              (Reference.vpn 1 address) (Reference.next_entry entry address)
              (memory (Reference.next_entry entry address))

        below :
            Mmu.walk read_pte write_pte 1 address t user (u32 (Mmu.ppn entry <<< 12)) h
            ≡ concluded write_pte h t lower
        below = rw (next_entry_lem entry address) (
            last_level-agrees (bit_and (address >>> 12) 0x3FF) _
              (Mmu.walk read_pte write_pte 0 address t user) _ (k entry refl))

    pub translate_mode-agrees :
        (memory : ℕ → Fetch)
        → h.rest.trap.satp_mode ≡ SatpMode.sv32
        → let root = Reference.root_entry h.rest.trap.satp_ppn address in
          read_pte root h ≡ fetched h (memory root)
          → ((entry : ℕ)
              → memory root ≡ Fetch.word entry
              → read_pte (Reference.next_entry entry address) h
                ≡ fetched h (memory (Reference.next_entry entry address)))
          → Mmu.translate_mode read_pte write_pte h.rest.trap.satp_mode address t user h
            ≡ concluded write_pte h t (
                Reference.sv32 user
                  (sum h.status)
                  (mxr h.status)
                  t
                  address
                  (Reference.vpn 1 address)
                  memory
                  h.rest.trap.satp_ppn)
    unfolding Mmu.translate_mode
    translate_mode-agrees memory mode e k = go h.rest.trap.satp_mode mode
      where
        go :
            (mode : SatpMode)
            → mode ≡ SatpMode.sv32
            → Mmu.translate_mode read_pte write_pte mode address t user h
              ≡ concluded write_pte h t (
                  Reference.sv32 user
                    (sum h.status)
                    (mxr h.status)
                    t
                    address
                    (Reference.vpn 1 address)
                    memory
                    h.rest.trap.satp_ppn)
        go SatpMode.bare e = absurd (cc e)
        go SatpMode.sv32 mode = walk-agrees h.rest.trap.satp_ppn memory _ e k
