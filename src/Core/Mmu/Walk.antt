-- ===== src/Core/Mmu/Walk.antt =====
-- Induction over the walk of the page tables of red-planet-core/src/core/mmu.rs: what the two closures
-- keep, a translation keeps, and what holds at the leaf of the walk holds of its result.
use redplanet.Base.{
  ℕ, zero, suc, ◌+◌, ◌-◌, ◌*◌, ◌^◌, ◌≡◌, ◌≢◌, ◌==◌, refl, arith, Bool, true, false, not, ◌&&◌, ◌||◌,
  if◌then◌else◌, bit, bit_and, u32, ◌<<<◌,
}
use redplanet.Privilege.{PrivilegeLevel}
use redplanet.Core.Machine.{Hart, Access, success, failure, crashed}
use redplanet.Core.Trap.{SatpMode}
use redplanet.Core.State.{Rest, AccessType}
use redplanet.Core.Sound.{IsOfBus}
use redplanet.Core.Mmu

module _ {B : Type 0} (F : Hart (Rest B) → Type 0) where
  -- `Q` holds of a success, `F` of the state of a failure, and a panic is that of a device.
  abbrev pub All : {A : Type 0} → (A → Hart (Rest B) → Type 0) → Access (Hart (Rest B)) A → Type 0
  All Q (success value h) = Q value h
  All Q (failure e h) = F h
  All Q (crashed p) = IsOfBus p

-- `F` is kept by all accesses, `E` holds of the entries that are read, and `Q` of the result.
module _ {B : Type 0} (F : Hart (Rest B) → Type 0) (E : ℕ → Type 0) (Q : ℕ → Hart (Rest B) → Type 0)
    (address : ℕ) (t : AccessType)
    (read_pte : (address : ℕ) → Hart (Rest B) → Access (Hart (Rest B)) ℕ)
    (write_pte : (address value : ℕ) → Hart (Rest B) → Access (Hart (Rest B)) (Unit {0}))
    (reads : (a : ℕ) (h : Hart (Rest B)) → F h → All F (λ entry h'. E entry × F h') (read_pte a h))
    (writes : (a value : ℕ) (h : Hart (Rest B))
      → F h
      → All F (λ _ h'. F h') (write_pte a value h)) where
  fault_of_pte-All :
      {A : Type 0} (G : A → Hart (Rest B) → Type 0) (access : Access (Hart (Rest B)) A)
      (f : A → Hart (Rest B) → Access (Hart (Rest B)) ℕ)
      → All F G access
      → ((value : A) (h : Hart (Rest B)) → G value h → All F Q (f value h))
      → All F Q (Mmu.fault_of_pte access f)
  fault_of_pte-All G (success value h) f s k = k value h s
  fault_of_pte-All G (failure e h) f s k = s
  fault_of_pte-All G (crashed p) f s k = s

  if-All :
      (b : Bool) (o p : Access (Hart (Rest B)) ℕ)
      → (b ≡ true → All F Q o)
      → (b ≡ false → All F Q p)
      → All F Q (if b then o else p)
  if-All true o p h k = h refl
  if-All false o p h k = k refl

  module _ (user_mode : Bool)
      (at_leaf : (entry ppn : ℕ) (h h' : Hart (Rest B))
        → E entry
        → Mmu.is_allowed t user_mode entry h ≡ true
        → F h'
        → Q (u32 (ppn <<< 12) + bit_and address 0xFFF) h') where
    finish-All :
        (entry_address entry ppn : ℕ) (h : Hart (Rest B))
        → E entry
        → Mmu.is_allowed t user_mode entry h ≡ true
        → F h
        → All F Q (Mmu.finish read_pte write_pte address t entry_address entry ppn h)
    unfolding Mmu.finish
    finish-All entry_address entry ppn h e allowed s =
        if-All (not (bit entry Mmu.a) || Mmu.is_write t && not (bit entry Mmu.d)) _ _
          (λ _.
            fault_of_pte-All (λ _ h'. F h') _ _ (writes entry_address _ h s)
              (λ _ h' s'. at_leaf entry ppn h h' e allowed s'))
          (λ _. at_leaf entry ppn h h e allowed s)

    leaf-All :
        (level vpn entry_address entry : ℕ) (h : Hart (Rest B))
        → E entry
        → Mmu.is_allowed t user_mode entry h ≡ true
        → F h
        → All F Q (Mmu.leaf read_pte write_pte level address t vpn entry_address entry h)
    unfolding Mmu.leaf
    leaf-All level vpn entry_address entry h e allowed s =
        if-All (level == 0) _ _ (λ _. finish-All entry_address entry _ h e allowed s)
          (λ _.
            if-All (not (bit_and (Mmu.ppn entry) (2 ^ (level * 10) - 1) == 0)) _ _ (λ _. s)
              (λ _. finish-All entry_address entry _ h e allowed s))

    follow-All :
        (level : ℕ) (next : (page_table : ℕ) → Hart (Rest B) → Access (Hart (Rest B)) ℕ)
        → ((level ≢ 0) → (table : ℕ) (h : Hart (Rest B)) → F h → All F Q (next table h))
        → (vpn entry_address entry : ℕ) (h : Hart (Rest B)) → E entry × F h
        → All F Q
            (Mmu.follow read_pte write_pte level address t user_mode next vpn entry_address entry h)
    unfolding Mmu.follow
    follow-All level next k vpn entry_address entry h (e, s) =
        if-All (not (bit entry Mmu.v) || not (bit entry Mmu.r) && bit entry Mmu.w) _ _ (λ _. s)
          (λ _.
            if-All (not (bit entry Mmu.r) && not (bit entry Mmu.x)) _ _
              (λ _.
                if-All (level == 0) _ _ (λ _. s)
                  (λ b. k (nonzero level b) (u32 (Mmu.ppn entry <<< 12)) h s))
              (λ _.
                if-All (not (Mmu.is_allowed t user_mode entry h)) _ _ (λ _. s)
                  (λ b. leaf-All level vpn entry_address entry h e (not_false _ b) s)))
      where
        nonzero : (level : ℕ) → (level == 0) ≡ false → level ≢ 0
        nonzero level e = ground arith

        not_false : (b : Bool) → not b ≡ false → b ≡ true
        not_false b e = ground arith

    walk-All :
        (levels : ℕ)
        → levels ≢ 0
        → (table : ℕ) (h : Hart (Rest B)) → F h
        → All F Q (Mmu.walk read_pte write_pte levels address t user_mode table h)
    unfolding Mmu.walk
    walk-All zero ne table h s = absurd (ne refl)
    walk-All (suc level) ne table h s =
        fault_of_pte-All (λ entry h'. E entry × F h') _ _ (reads _ h s)
          (follow-All level _ (walk-All level) _ _)

    pub translate_mode-All :
        (mode : SatpMode) (h : Hart (Rest B))
        → (mode ≡ SatpMode.bare → Q address h)
        → F h
        → All F Q (Mmu.translate_mode read_pte write_pte mode address t user_mode h)
    unfolding Mmu.translate_mode
    translate_mode-All SatpMode.bare h q s = q refl
    translate_mode-All SatpMode.sv32 h q s = walk-All 2 (λ e. cc e) _ h s

  pub translate_common-All :
      ((user_mode : Bool) (entry ppn : ℕ) (h h' : Hart (Rest B))
        → E entry
        → Mmu.is_allowed t user_mode entry h ≡ true
        → F h'
        → Q (u32 (ppn <<< 12) + bit_and address 0xFFF) h')
      → (level : PrivilegeLevel) (h : Hart (Rest B)) → Q address h
      → F h
      → All F Q (Mmu.translate_address_common read_pte write_pte address t level h)
  unfolding Mmu.translate_address_common
  translate_common-All at_leaf PrivilegeLevel.machine h q s = q
  translate_common-All at_leaf PrivilegeLevel.user h q s =
      translate_mode-All true (at_leaf true) h.rest.trap.satp_mode h (λ _. q) s
  translate_common-All at_leaf PrivilegeLevel.supervisor h q s =
      translate_mode-All false (at_leaf false) h.rest.trap.satp_mode h (λ _. q) s
