-- ===== src/Core/Csr/Names.antt =====
-- The names of the CSRs, the constants of red-planet-core/src/core/csr.rs. PMP registers have no
-- constructor: both matches of core/mod.rs answer for them as for an address without a name.
use redplanet.Base.{
  ℕ, ◌+◌, ◌-◌, ◌==◌, leb, Bool, ◌&&◌, List, [], ◌∷◌, if◌then◌else◌, ◌≤◌, ◌≡◌, true, false,
  Bool-cases, inl, inr, arith, subst, refl,
}
use redplanet.Instruction.Types.{CsrSpecifier}

pub data Csr : Type 0 where
  fflags frm fcsr cycle time instret cycleh timeh instreth sstatus sie stvec scounteren : Csr
  senvcfg sscratch sepc scause stval sip satp : Csr
  scontext mvendorid marchid mimpid mhartid mconfigptr mstatus misa medeleg mideleg mie : Csr
  mtvec mcounteren mstatush mscratch mepc mcause mtval mip mtinst : Csr
  mtval2 menvcfg menvcfgh mseccfg mseccfgh mcycle minstret mcycleh minstreth : Csr
  mcountinhibit tselect tdata1 tdata2 tdata3 mcontext unnamed : Csr
  hpmcounter hpmcounterh mhpmcounter mhpmcounterh mhpmevent : (n : ℕ) → Csr

abbrev table : List (ℕ × Csr)
table =
    (0x001, Csr.fflags)
    ∷ (0x002, Csr.frm)
    ∷ (0x003, Csr.fcsr)
    ∷ (0xC00, Csr.cycle)
    ∷ (0xC01, Csr.time)
    ∷ (0xC02, Csr.instret)
    ∷ (0xC80, Csr.cycleh)
    ∷ (0xC81, Csr.timeh)
    ∷ (0xC82, Csr.instreth)
    ∷ (0x100, Csr.sstatus)
    ∷ (0x104, Csr.sie)
    ∷ (0x105, Csr.stvec)
    ∷ (0x106, Csr.scounteren)
    ∷ (0x10A, Csr.senvcfg)
    ∷ (0x140, Csr.sscratch)
    ∷ (0x141, Csr.sepc)
    ∷ (0x142, Csr.scause)
    ∷ (0x143, Csr.stval)
    ∷ (0x144, Csr.sip)
    ∷ (0x180, Csr.satp)
    ∷ (0x5A8, Csr.scontext)
    ∷ (0xF11, Csr.mvendorid)
    ∷ (0xF12, Csr.marchid)
    ∷ (0xF13, Csr.mimpid)
    ∷ (0xF14, Csr.mhartid)
    ∷ (0xF15, Csr.mconfigptr)
    ∷ (0x300, Csr.mstatus)
    ∷ (0x301, Csr.misa)
    ∷ (0x302, Csr.medeleg)
    ∷ (0x303, Csr.mideleg)
    ∷ (0x304, Csr.mie)
    ∷ (0x305, Csr.mtvec)
    ∷ (0x306, Csr.mcounteren)
    ∷ (0x310, Csr.mstatush)
    ∷ (0x340, Csr.mscratch)
    ∷ (0x341, Csr.mepc)
    ∷ (0x342, Csr.mcause)
    ∷ (0x343, Csr.mtval)
    ∷ (0x344, Csr.mip)
    ∷ (0x34A, Csr.mtinst)
    ∷ (0x34B, Csr.mtval2)
    ∷ (0x30A, Csr.menvcfg)
    ∷ (0x31A, Csr.menvcfgh)
    ∷ (0x747, Csr.mseccfg)
    ∷ (0x757, Csr.mseccfgh)
    ∷ (0xB00, Csr.mcycle)
    ∷ (0xB02, Csr.minstret)
    ∷ (0xB80, Csr.mcycleh)
    ∷ (0xB82, Csr.minstreth)
    ∷ (0x320, Csr.mcountinhibit)
    ∷ (0x7A0, Csr.tselect)
    ∷ (0x7A1, Csr.tdata1)
    ∷ (0x7A2, Csr.tdata2)
    ∷ (0x7A3, Csr.tdata3)
    ∷ (0x7A8, Csr.mcontext)
    ∷ []

find_name : CsrSpecifier → List (CsrSpecifier × Csr) → Csr
find_name specifier [] = Csr.unnamed
find_name specifier ((k, c) ∷ rest) = if specifier == k then c else find_name specifier rest

abbrev within : (first last specifier : ℕ) → Bool
within first last specifier = leb first specifier && leb specifier last

-- `3 + (specifier - csr::HPMCOUNTER3)`, and its siblings
unfoldable pub name_of : CsrSpecifier → Csr
unfolding find_name
name_of specifier =
    if within 0xC03 0xC1F specifier
    then Csr.hpmcounter (3 + (specifier - 0xC03))
    else if within 0xC83 0xC9F specifier
    then Csr.hpmcounterh (3 + (specifier - 0xC83))
    else if within 0xB03 0xB1F specifier
    then Csr.mhpmcounter (3 + (specifier - 0xB03))
    else if within 0xB83 0xB9F specifier
    then Csr.mhpmcounterh (3 + (specifier - 0xB83))
    else if within 0x323 0x33F specifier
    then Csr.mhpmevent (3 + (specifier - 0x323))
    else find_name specifier table

-- What a name tells of the address: the read-only registers lie at the top, and the numbered counters
-- have the numbers 3 to 31.
abbrev pub Fits : CsrSpecifier → Csr → Type 0
Fits s Csr.fflags = Unit
Fits s Csr.frm = Unit
Fits s Csr.fcsr = Unit
Fits s Csr.cycle = 0xC00 ≤ s
Fits s Csr.time = 0xC00 ≤ s
Fits s Csr.instret = 0xC00 ≤ s
Fits s Csr.cycleh = 0xC00 ≤ s
Fits s Csr.timeh = 0xC00 ≤ s
Fits s Csr.instreth = 0xC00 ≤ s
Fits s Csr.sstatus = Unit
Fits s Csr.sie = Unit
Fits s Csr.stvec = Unit
Fits s Csr.scounteren = Unit
Fits s Csr.senvcfg = Unit
Fits s Csr.sscratch = Unit
Fits s Csr.sepc = Unit
Fits s Csr.scause = Unit
Fits s Csr.stval = Unit
Fits s Csr.sip = Unit
Fits s Csr.satp = Unit
Fits s Csr.scontext = Unit
Fits s Csr.mvendorid = 0xC00 ≤ s
Fits s Csr.marchid = 0xC00 ≤ s
Fits s Csr.mimpid = 0xC00 ≤ s
Fits s Csr.mhartid = 0xC00 ≤ s
Fits s Csr.mconfigptr = 0xC00 ≤ s
Fits s Csr.mstatus = Unit
Fits s Csr.misa = Unit
Fits s Csr.medeleg = Unit
Fits s Csr.mideleg = Unit
Fits s Csr.mie = Unit
Fits s Csr.mtvec = Unit
Fits s Csr.mcounteren = Unit
Fits s Csr.mstatush = Unit
Fits s Csr.mscratch = Unit
Fits s Csr.mepc = Unit
Fits s Csr.mcause = Unit
Fits s Csr.mtval = Unit
Fits s Csr.mip = Unit
Fits s Csr.mtinst = Unit
Fits s Csr.mtval2 = Unit
Fits s Csr.menvcfg = Unit
Fits s Csr.menvcfgh = Unit
Fits s Csr.mseccfg = Unit
Fits s Csr.mseccfgh = Unit
Fits s Csr.mcycle = Unit
Fits s Csr.minstret = Unit
Fits s Csr.mcycleh = Unit
Fits s Csr.minstreth = Unit
Fits s Csr.mcountinhibit = Unit
Fits s Csr.tselect = Unit
Fits s Csr.tdata1 = Unit
Fits s Csr.tdata2 = Unit
Fits s Csr.tdata3 = Unit
Fits s Csr.mcontext = Unit
Fits s Csr.unnamed = Unit
Fits s (Csr.hpmcounter n) = (0xC00 ≤ s) × (3 ≤ n) × (n ≤ 31)
Fits s (Csr.hpmcounterh n) = (0xC00 ≤ s) × (3 ≤ n) × (n ≤ 31)
Fits s (Csr.mhpmcounter n) = (3 ≤ n) × (n ≤ 31)
Fits s (Csr.mhpmcounterh n) = (3 ≤ n) × (n ≤ 31)
Fits s (Csr.mhpmevent n) = (3 ≤ n) × (n ≤ 31)

abbrev AllFit : List (CsrSpecifier × Csr) → Type 0
AllFit [] = Unit
AllFit ((k, c) ∷ rest) = Fits k c × AllFit rest

find_name-Fits :
    (s : CsrSpecifier) (l : List (CsrSpecifier × Csr)) → AllFit l → Fits s (find_name s l)
unfolding find_name
find_name-Fits s [] h = tt
find_name-Fits s ((k, c) ∷ rest) (h, hs) = elim (Bool-cases (s == k)) [
  | inl here ↦ rw here (subst (λ n. Fits n c) (same s k here) h)
  | inr past ↦ rw past (find_name-Fits s rest hs)
]
  where
    same : (s k : ℕ) → (s == k) ≡ true → k ≡ s
    same s k e = ground arith

table-fits : AllFit table
table-fits = omega arith

if-Fits :
    (s : ℕ) (b : Bool) (c d : Csr) → (b ≡ true → Fits s c) → Fits s d → Fits s (if b then c else d)
if-Fits s true c d h k = h refl
if-Fits s false c d h k = k

pub name_of-Fits : (s : CsrSpecifier) → Fits s (name_of s)
unfolding name_of
name_of-Fits s =
    if-Fits s (within 0xC03 0xC1F s) _ _ (λ h. ground (arith, h))
      (if-Fits s (within 0xC83 0xC9F s) _ _ (λ h. ground (arith, h))
        (if-Fits s (within 0xB03 0xB1F s) _ _ (λ h. ground (arith, h))
          (if-Fits s (within 0xB83 0xB9F s) _ _ (λ h. ground (arith, h))
            (if-Fits s (within 0x323 0x33F s) _ _ (λ h. ground (arith, h))
              (find_name-Fits s table table-fits)))))
