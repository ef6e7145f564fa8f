-- ===== src/Core/Trap/Laws.antt =====
-- The invariant of the trap registers: every register is a word, and the vector bases are word
-- addresses, so that the assertion in `read_tvec` holds.
use redplanet.Base.{
  ℕ, ◌%◌, ◌^◌, ◌<◌, ◌≡◌, ◌==◌, arith, true, Option, none, some, bit_and, bit_or, not_u32, u32,
  ◌<<<◌, Bool-cases, inl, inr,
}
use redplanet.Base.Bits.{bit_and_mask}
use redplanet.Base.Bounds.{bit_and-lt, bit_or-lt}
use redplanet.Base.Masks.{masked-lt, bit_and_low, bit_and_low_right, bit_or_low}
use redplanet.Core.Cause.{ExceptionCode, Interrupt, Cause, CauseCode, code, exception_number}
use redplanet.Core.Execute.Sound.{IsCodeAddress}
use redplanet.Core.Trap

pub record IsSoundTrap (t : Trap.Trap) : Type 0 where
  pub m_base : IsCodeAddress t.m_vector_base_address
  pub s_base : IsCodeAddress t.s_vector_base_address
  pub mscratch : t.mscratch < 2 ^ 32
  pub sscratch : t.sscratch < 2 ^ 32
  pub delegate : t.delegate_exception < 2 ^ 32
  pub mtval : t.mtval < 2 ^ 32
  pub mtval2 : t.mtval2 < 2 ^ 32
  pub mtinst : t.mtinst < 2 ^ 32
  pub stval : t.stval < 2 ^ 32
  pub ppn : t.satp_ppn < 2 ^ 22

-- A read of a vector register gives a word, and never panics.
abbrev pub IsSoundTvec : Option ℕ → Type 0
IsSoundTvec none = ⊥
IsSoundTvec (some v) = v < 2 ^ 32

pub read_tvec-IsSound :
    (base : ℕ) (mode : Trap.VectorMode)
    → IsCodeAddress base
    → IsSoundTvec (Trap.read_tvec base mode)
unfolding Trap.read_tvec
read_tvec-IsSound base mode h = rw (aligned base h.aligned) (bit_or-lt 32 _ _ h.word (mode-lt mode))
  where
    aligned : (a : ℕ) → a % 4 ≡ 0 → (bit_and a 0b11 == 0) ≡ true
    aligned a e = ground (arith, e, bit_and_mask 2 a)

    mode-lt : (mode : Trap.VectorMode) → Trap.mode_bits mode < 2 ^ 32
    mode-lt Trap.VectorMode.direct = omega arith
    mode-lt Trap.VectorMode.vectored = omega arith

abbrev IsSoundFields : Option (ℕ × Trap.VectorMode) → Type 0
IsSoundFields none = ⊥
IsSoundFields (some (base, mode)) = IsCodeAddress base

tvec_fields-IsSound :
    (base : ℕ) (mode : Trap.VectorMode) (tvec : ℕ)
    → IsCodeAddress base
    → tvec < 2 ^ 32
    → IsCodeAddress (Trap.tvec_fields base mode tvec).0
tvec_fields-IsSound base mode tvec h k = elim (Bool-cases (bit_and tvec 0b11 == 0)) [
  | inl a ↦ rw a cleared
  | inr a ↦
      rw a (elim (Bool-cases (bit_and tvec 0b11 == 1)) [ inl b ↦ rw b cleared | inr b ↦ rw b h ])
]
  where
    cleared : IsCodeAddress (bit_and tvec (not_u32 0b11))
    cleared = record {
      word = bit_and-lt 32 tvec (not_u32 0b11) k;
      aligned = bit_and_low_right tvec (not_u32 0b11) (omega arith);
    }

write_tvec-IsSound :
    (base : ℕ) (mode : Trap.VectorMode) (value mask : ℕ)
    → IsCodeAddress base
    → value < 2 ^ 32
    → IsSoundFields (Trap.write_tvec base mode value mask)
unfolding Trap.write_tvec
write_tvec-IsSound base mode value mask h k =
    go (Trap.read_tvec base mode) (read_tvec-IsSound base mode h)
  where
    go :
        (o : Option ℕ) → IsSoundTvec o → IsSoundFields (Trap.write_tvec_read base mode value mask o)
    go none s = s
    go (some old) s = tvec_fields-IsSound base mode _ h (masked-lt old value mask s k)

abbrev pub IsSoundTrapOption : Option Trap.Trap → Type 0
IsSoundTrapOption none = ⊥
IsSoundTrapOption (some t) = IsSoundTrap t

pub write_mtvec-IsSound :
    (value mask : ℕ) (t : Trap.Trap)
    → IsSoundTrap t
    → value < 2 ^ 32
    → IsSoundTrapOption (Trap.write_mtvec value mask t)
unfolding Trap.write_mtvec
write_mtvec-IsSound value mask t s k =
    go _ (write_tvec-IsSound t.m_vector_base_address t.m_vector_mode value mask s.m_base k)
  where
    go :
        (o : Option (ℕ × Trap.VectorMode))
        → IsSoundFields o
        → IsSoundTrapOption (Trap.with_m_vector o t)
    go none h = h
    go (some (base, mode)) h = record {
      m_base = h;
      s_base = s.s_base;
      mscratch = s.mscratch;
      sscratch = s.sscratch;
      delegate = s.delegate;
      mtval = s.mtval;
      mtval2 = s.mtval2;
      mtinst = s.mtinst;
      stval = s.stval;
      ppn = s.ppn;
    }

pub write_stvec-IsSound :
    (value mask : ℕ) (t : Trap.Trap)
    → IsSoundTrap t
    → value < 2 ^ 32
    → IsSoundTrapOption (Trap.write_stvec value mask t)
unfolding Trap.write_stvec
write_stvec-IsSound value mask t s k =
    go _ (write_tvec-IsSound t.s_vector_base_address t.s_vector_mode value mask s.s_base k)
  where
    go :
        (o : Option (ℕ × Trap.VectorMode))
        → IsSoundFields o
        → IsSoundTrapOption (Trap.with_s_vector o t)
    go none h = h
    go (some (base, mode)) h = record {
      m_base = s.m_base;
      s_base = h;
      mscratch = s.mscratch;
      sscratch = s.sscratch;
      delegate = s.delegate;
      mtval = s.mtval;
      mtval2 = s.mtval2;
      mtinst = s.mtinst;
      stval = s.stval;
      ppn = s.ppn;
    }

-- A write of mepc or sepc leaves a word address.
pub write_epc-IsCodeAddress :
    (epc value mask : ℕ)
    → IsCodeAddress epc
    → value < 2 ^ 32
    → IsCodeAddress (Trap.write_epc epc value mask)
unfolding Trap.write_epc
write_epc-IsCodeAddress epc value mask h k = record {
  word =
      bit_or-lt 32 _ _ (bit_and-lt 32 epc (not_u32 mask) h.word)
        (bit_and-lt 32 _ (not_u32 0b11) (bit_and-lt 32 value mask k));
  aligned =
      bit_or_low _ _ (bit_and_low epc (not_u32 mask) h.aligned)
        (bit_and_low_right (bit_and value mask) (not_u32 0b11) (omega arith));
}

exception_number-lt : (c : ExceptionCode) → exception_number c < 2 ^ 32
exception_number-lt c = ground arith

interrupt_word-lt :
    (i : Option Interrupt) → bit_or 0x8000_0000 (Trap.interrupt_number_or_zero i) < 2 ^ 32
interrupt_word-lt i =
    bit_or-lt 32 0x8000_0000 (Trap.interrupt_number_or_zero i) (omega arith) (go i)
  where
    go : (i : Option Interrupt) → Trap.interrupt_number_or_zero i < 2 ^ 32
    go i = ground arith

pub read_cause-lt : (last : Cause) (o : Option CauseCode) → Trap.read_cause last o < 2 ^ 32
unfolding Trap.read_cause
read_cause-lt last (some (CauseCode.exception none)) = omega arith
read_cause-lt last (some (CauseCode.exception (some c))) = exception_number-lt c
read_cause-lt last (some (CauseCode.interrupt i)) = interrupt_word-lt i
read_cause-lt (Cause.exception none) none = omega arith
read_cause-lt (Cause.exception (some e)) none = exception_number-lt (code e)
read_cause-lt (Cause.interrupt i) none = interrupt_word-lt i

pub satp-lt : (t : Trap.Trap) → IsSoundTrap t → Trap.satp t < 2 ^ 32
unfolding Trap.satp
satp-lt t s =
    bit_or-lt 32 _ t.satp_ppn
      (bit_or-lt 32 (Trap.satp_mode_bits t.satp_mode) (u32 (t.satp_asid <<< 22)) (go t.satp_mode)
        (omega arith))
      (omega (arith, s.ppn))
  where
    go : (m : Trap.SatpMode) → Trap.satp_mode_bits m < 2 ^ 32
    go Trap.SatpMode.bare = omega arith
    go Trap.SatpMode.sv32 = omega arith
