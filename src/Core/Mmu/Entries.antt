-- ===== src/Core/Mmu/Entries.antt =====
-- The tests and the address computations on one page table entry, in red-planet-core/src/core/mmu.rs and
-- in Core/Mmu/Reference.antt.
use redplanet.Base.{
  ℕ, ◌+◌, ◌-◌, ◌*◌, ◌/◌, ◌%◌, ◌^◌, ◌≡◌, refl, arith, Bool, true, false, not, ◌&&◌, ◌||◌,
  if◌then◌else◌, bit_and, bit_or, u32, ◌<<<◌, ◌>>>◌,
}
use redplanet.Base.Bits.{bit_and_mask, bit_or_fields}
use redplanet.Core.Machine.{Hart}
use redplanet.Core.Status.{mxr, sum}
use redplanet.Core.State.{Rest, AccessType}
use redplanet.Core.Mmu
use redplanet.Core.Mmu.Reference
use redplanet.Core.Mmu.Reference.{Fetch, Verdict}

-- The tests of the walk, in its order and in that of the specification.
pub kinds :
    {A : Type 0} (v r w x : Bool) (bad table leaf : A)
    → (if not v || not r && w then bad else if not r && not x then table else leaf)
      ≡ (if v && (r || not w) then (if r || x then leaf else table) else bad)
kinds false r w x bad table leaf = refl
kinds true true w x bad table leaf = refl
kinds true false true x bad table leaf = refl
kinds true false false true bad table leaf = refl
kinds true false false false bad table leaf = refl

pub permitted-is_allowed :
    {B : Type 0} (t : AccessType) (user : Bool) (entry : ℕ) (h : Hart (Rest B))
    → Mmu.is_allowed t user entry h ≡ Reference.permitted user (sum h.status) (mxr h.status) t entry
unfolding Mmu.is_allowed
permitted-is_allowed AccessType.read true entry h = ground arith
permitted-is_allowed AccessType.read false entry h = ground arith
permitted-is_allowed AccessType.write true entry h = ground arith
permitted-is_allowed AccessType.write false entry h = ground arith
permitted-is_allowed AccessType.execute true entry h = ground arith
permitted-is_allowed AccessType.execute false entry h = ground arith

pub small_page :
    (entry address : ℕ)
    → u32 (Mmu.ppn entry <<< 12) + bit_and address 0xFFF
      ≡ entry / 2 ^ 10 % 2 ^ 20 * 2 ^ 12 + address % 2 ^ 12
small_page entry address = omega (arith, bit_and_mask 12 address)

pub large_page :
    (entry address : ℕ)
    → entry / 2 ^ 10 % 2 ^ 10 ≡ 0
    → u32 (bit_or (Mmu.ppn entry) (bit_and (bit_and (address >>> 22) 0x3FF) (2 ^ 10 - 1)) <<< 12)
        + bit_and address 0xFFF
      ≡ entry / 2 ^ 20 % 2 ^ 10 * 2 ^ 22 + Reference.vpn 1 address * 2 ^ 12 + address % 2 ^ 12
large_page entry address h =
    rw
      (
        aligned entry h,
        bit_and_mask 10 (address / 2 ^ 22),
        bit_and_mask 10 (address / 2 ^ 22 % 2 ^ 10),
        bit_or_fields 10 (entry / 2 ^ 20 % 2 ^ 12) (address / 2 ^ 22 % 2 ^ 10 % 2 ^ 10)
            (omega arith),
        bit_and_mask 12 address,
      )
      (omega arith)
  where
    aligned :
        (entry : ℕ) → entry / 2 ^ 10 % 2 ^ 10 ≡ 0 → Mmu.ppn entry ≡ entry / 2 ^ 20 % 2 ^ 12 * 2 ^ 10
    aligned entry h = omega (arith, h)

pub root_entry_lem :
    (root address : ℕ)
    → u32 (root <<< 12) + (bit_and (address >>> 22) 0x3FF <<< 2) ≡ Reference.root_entry root address
root_entry_lem root address = omega (arith, bit_and_mask 10 (address >>> 22))

pub next_entry_lem :
    (entry address : ℕ)
    → u32 (Mmu.ppn entry <<< 12) + (bit_and (address >>> 12) 0x3FF <<< 2)
      ≡ Reference.next_entry entry address
next_entry_lem entry address = omega (arith, bit_and_mask 10 (address >>> 12))

-- A conditional of accesses follows one of verdicts.
pub branch :
    {A V : Type 0} (f : V → A) (c : Bool) (x y : A) (p q : V)
    → x ≡ f p
    → y ≡ f q
    → (if c then x else y) ≡ f (if c then p else q)
branch f true x y p q k l = k
branch f false x y p q k l = l

pub unless :
    {A V : Type 0} (f : V → A) (b c : Bool) (x y : A) (p q : V)
    → b ≡ c
    → x ≡ f q
    → (c ≡ true → y ≡ f p)
    → (if not b then x else y) ≡ f (if c then p else q)
unless f b true x y p q e k l = rw e (l refl)
unless f b false x y p q e k l = rw e k
