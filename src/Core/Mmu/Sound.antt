-- ===== src/Core/Mmu/Sound.antt =====
-- The memory management unit keeps the invariant of the core, over any page tables, reads values of
-- their width and panics only where a device does; with the CSRs it fills the interface that the executor takes.
use redplanet.Base.{
  ℕ, zero, suc, ◌+◌, ◌/◌, ◌^◌, ◌<◌, ◌≤◌, ◌≡◌, refl, arith, List, [], ◌∷◌, ◌++◌, length,
  length-append, bit_and, u32, ◌<<<◌, replicate, ◌∙◌,
}
use mathlib.Core.List.{reverse, reverse-append}
use redplanet.Base.Bits.{bit_and_mask}
use redplanet.Privilege.{PrivilegeLevel}
use redplanet.Core.Machine.{Hart, Access, success, failure, crashed}
use redplanet.Core.State.{Rest, AccessType}
use redplanet.Core.Execute.Sound.{Contract, IsSoundHart, IsSoundRead}
use redplanet.Core.Sound.{IsOfBus, CoreContract, IsBytes, AllBytes}
use redplanet.Core.Mmu
use redplanet.Core.Mmu.Walk.{All, translate_common-All}

pub replicate-IsBytes : (n : ℕ) → IsBytes n (replicate n 0)
replicate-IsBytes zero = omega arith
replicate-IsBytes (suc n) =
    let (len, bytes) = replicate-IsBytes n in (omega (arith, len), (omega arith, bytes))

pub to_le_bytes-IsBytes : (n value : ℕ) → IsBytes n (Mmu.to_le_bytes n value)
unfolding Mmu.to_le_bytes
to_le_bytes-IsBytes zero value = omega arith
to_le_bytes-IsBytes (suc n) value =
    let (len, bytes) = to_le_bytes-IsBytes n (value / 2 ^ 8) in
    (omega (arith, len), (omega arith, bytes))

append-AllBytes : (l m : List ℕ) → AllBytes l → AllBytes m → AllBytes (l ++ m)
append-AllBytes [] m h k = k
append-AllBytes (b ∷ l) m (hb, h) k = (hb, append-AllBytes l m h k)

pub reverse-IsBytes : (n : ℕ) (l : List ℕ) → IsBytes n l → IsBytes n (reverse l)
reverse-IsBytes n l (len, bytes) = (reverse-length l ∙ len, reverse-AllBytes l bytes)
  where
    reverse-length : (l : List ℕ) → length (reverse l) ≡ length l
    reverse-length [] = refl
    reverse-length (b ∷ l) =
        rw (reverse-append (b ∷ []) l)
          (omega (arith, length-append {0} (reverse l) (b ∷ []), reverse-length l))

    reverse-AllBytes : (l : List ℕ) → AllBytes l → AllBytes (reverse l)
    reverse-AllBytes [] h = tt
    reverse-AllBytes (b ∷ l) (hb, h) =
        rw (reverse-append (b ∷ []) l)
          (append-AllBytes (reverse l) (b ∷ []) (reverse-AllBytes l h) (hb, tt))

module _ {B : Type 0} (P : B → Type 0) where
  abbrev pub R : Contract (Rest B)
  R = CoreContract P

  abbrev pub IsSound : Hart (Rest B) → Type 0
  IsSound = IsSoundHart R

  -- The access leaves a sound core, and panics only where a device does.
  abbrev pub LeavesSound : {A : Type 0} → Access (Hart (Rest B)) A → Type 0
  LeavesSound (success value h) = IsSound h
  LeavesSound (failure e h) = IsSound h
  LeavesSound (crashed p) = IsOfBus p

-- A translated address is below every bound that holds for words and for the virtual address, since
-- without translation that address is passed on.
module _ {B : Type 0} (P : B → Type 0) (n : ℕ) (big : 2 ^ 32 ≤ n) where
  pub translate_common-IsSound :
      (read_pte : (address : ℕ) → Hart (Rest B) → Access (Hart (Rest B)) ℕ)
      (write_pte : (address value : ℕ) → Hart (Rest B) → Access (Hart (Rest B)) (Unit {0}))
      → ((address : ℕ) (h : Hart (Rest B)) → IsSound P h → LeavesSound P (read_pte address h))
      → ((address value : ℕ) (h : Hart (Rest B))
          → IsSound P h
          → LeavesSound P (write_pte address value h))
      → (address : ℕ) (t : AccessType) (level : PrivilegeLevel) (h : Hart (Rest B)) → address < n
      → IsSound P h
      → IsSoundRead (R P) n (Mmu.translate_address_common read_pte write_pte address t level h)
  translate_common-IsSound read_pte write_pte reads writes address t level h a s = of_All _ (
      translate_common-All (IsSound P) (λ _. Unit {0}) (λ v h'. (v < n) × IsSound P h') address t
        read_pte write_pte (λ a h s. read _ (reads a h s)) (λ a v h s. written _ (writes a v h s))
        (λ user_mode entry ppn h h' e allowed s'. (physical-lt ppn address, s')) level h (a, s) s)
    where
      physical-lt : (ppn address : ℕ) → u32 (ppn <<< 12) + bit_and address 0xFFF < n
      physical-lt ppn address = omega (arith, big, bit_and_mask 12 address)

      of_All :
          (o : Access (Hart (Rest B)) ℕ)
          → All (IsSound P) (λ v h'. (v < n) × IsSound P h') o
          → IsSoundRead (R P) n o
      of_All (success v h) k = k
      of_All (failure e h) k = k
      of_All (crashed p) k = k

      read :
          (o : Access (Hart (Rest B)) ℕ)
          → LeavesSound P o
          → All (IsSound P) (λ entry h'. Unit {0} × IsSound P h') o
      read (success v h) k = (tt, k)
      read (failure e h) k = k
      read (crashed p) k = k

      written :
          (o : Access (Hart (Rest B)) (Unit {0}))
          → LeavesSound P o
          → All (IsSound P) (λ _ h'. IsSound P h') o
      written (success v h) k = k
      written (failure e h) k = k
      written (crashed p) k = k
