-- ===== src/Core/Interrupts/Priority.antt =====
-- Which interrupt `highest_priority_m_ready` and `highest_priority_s_ready` choose, against the order
-- of the privileged specification.
use redplanet.Base.{
  ℕ, ◌-◌, ◌^◌, ◌<◌, ◌≡◌, arith, Bool, true, false, ◌&&◌, not, Option, none, some, if◌then◌else◌,
  bit, bit_and, Bool-cases, inl, inr, subst, sym,
}
use redplanet.Base.Masks.{bit-bit_and}
use redplanet.Core.Cause.{Interrupt, interrupt_number}
use redplanet.Core.Interrupts

-- MEI, MSI, MTI, SEI, SSI, STI, from the highest on.
abbrev pub priority : Interrupt → ℕ
priority Interrupt.machine_external_interrupt = 6
priority Interrupt.machine_software_interrupt = 5
priority Interrupt.machine_timer_interrupt = 4
priority Interrupt.supervisor_external_interrupt = 3
priority Interrupt.supervisor_software_interrupt = 2
priority Interrupt.supervisor_timer_interrupt = 1

-- Pending and enabled.
abbrev pub is_live : Interrupt → Interrupts.Interrupts → Bool
is_live i s = bit s.mip (interrupt_number i) && bit s.mie (interrupt_number i)

abbrev pub is_m_ready : Interrupt → Interrupts.Interrupts → Bool
is_m_ready i s = is_live i s && not (bit s.delegate (interrupt_number i))

m_ready-bit :
    (i : Interrupt) (s : Interrupts.Interrupts)
    → s.delegate < 2 ^ 16
    → bit (Interrupts.m_ready s) (interrupt_number i) ≡ is_m_ready i s
m_ready-bit i s h = rw (
  bit-bit_and (bit_and s.mip s.mie) (2 ^ 16 - 1 - s.delegate) (interrupt_number i),
  bit-bit_and s.mip s.mie (interrupt_number i),
  complement i,
)
  where
    complement :
        (i : Interrupt)
        → bit (2 ^ 16 - 1 - s.delegate) (interrupt_number i)
          ≡ not (bit s.delegate (interrupt_number i))
    complement i = ground (arith, h)

-- The choice is the first of the order that is ready.
abbrev pub IsHighest : (Interrupt → Bool) → Option Interrupt → Type 0
IsHighest ready none = (j : Interrupt) → ready j ≡ false
IsHighest ready (some i) =
    (ready i ≡ true) × ((j : Interrupt) → priority i < priority j → ready j ≡ false)

positive : (j : Interrupt) → 0 < priority j
positive j = ground arith

module _ (p : Interrupt → Bool) where
  -- The six tests of the list, one after the other.
  choose : Option Interrupt
  choose =
      if p Interrupt.machine_external_interrupt
      then some Interrupt.machine_external_interrupt
      else if p Interrupt.machine_software_interrupt
      then some Interrupt.machine_software_interrupt
      else if p Interrupt.machine_timer_interrupt
      then some Interrupt.machine_timer_interrupt
      else if p Interrupt.supervisor_external_interrupt
      then some Interrupt.supervisor_external_interrupt
      else if p Interrupt.supervisor_software_interrupt
      then some Interrupt.supervisor_software_interrupt
      else if p Interrupt.supervisor_timer_interrupt
      then some Interrupt.supervisor_timer_interrupt
      else none

  none_above :
      (n : ℕ)
      → (n < 6 → p Interrupt.machine_external_interrupt ≡ false)
      → (n < 5 → p Interrupt.machine_software_interrupt ≡ false)
      → (n < 4 → p Interrupt.machine_timer_interrupt ≡ false)
      → (n < 3 → p Interrupt.supervisor_external_interrupt ≡ false)
      → (n < 2 → p Interrupt.supervisor_software_interrupt ≡ false)
      → (n < 1 → p Interrupt.supervisor_timer_interrupt ≡ false)
      → (j : Interrupt) → n < priority j
      → p j ≡ false
  none_above n a b c d e f Interrupt.machine_external_interrupt h = a h
  none_above n a b c d e f Interrupt.machine_software_interrupt h = b h
  none_above n a b c d e f Interrupt.machine_timer_interrupt h = c h
  none_above n a b c d e f Interrupt.supervisor_external_interrupt h = d h
  none_above n a b c d e f Interrupt.supervisor_software_interrupt h = e h
  none_above n a b c d e f Interrupt.supervisor_timer_interrupt h = f h

  choose-IsHighest : IsHighest p choose
  unfolding choose
  choose-IsHighest = elim (Bool-cases (p Interrupt.machine_external_interrupt)) [
    | inl a ↦ rw a (
      a,
      none_above 6 (λ h. absurd (omega arith)) (λ h. absurd (omega arith))
          (λ h. absurd (omega arith)) (λ h. absurd (omega arith)) (λ h. absurd (omega arith))
          (λ h. absurd (omega arith)),
    )
    | inr a ↦ rw a (elim (Bool-cases (p Interrupt.machine_software_interrupt)) [
      | inl b ↦ rw b (
        b,
        none_above 5 (λ _. a) (λ h. absurd (omega arith)) (λ h. absurd (omega arith))
            (λ h. absurd (omega arith)) (λ h. absurd (omega arith)) (λ h. absurd (omega arith)),
      )
      | inr b ↦ rw b (elim (Bool-cases (p Interrupt.machine_timer_interrupt)) [
        | inl c ↦ rw c (
          c,
          none_above 4 (λ _. a) (λ _. b) (λ h. absurd (omega arith)) (λ h. absurd (omega arith))
              (λ h. absurd (omega arith)) (λ h. absurd (omega arith)),
        )
        | inr c ↦ rw c (elim (Bool-cases (p Interrupt.supervisor_external_interrupt)) [
          | inl d ↦ rw d (
            d,
            none_above 3 (λ _. a) (λ _. b) (λ _. c) (λ h. absurd (omega arith))
                (λ h. absurd (omega arith)) (λ h. absurd (omega arith)),
          )
          | inr d ↦ rw d (elim (Bool-cases (p Interrupt.supervisor_software_interrupt)) [
            | inl e ↦ rw e (
              e,
              none_above 2 (λ _. a) (λ _. b) (λ _. c) (λ _. d) (λ h. absurd (omega arith))
                  (λ h. absurd (omega arith)),
            )
            | inr e ↦ rw e (elim (Bool-cases (p Interrupt.supervisor_timer_interrupt)) [
              | inl f ↦ rw f (
                f,
                none_above 1 (λ _. a) (λ _. b) (λ _. c) (λ _. d) (λ _. e)
                    (λ h. absurd (omega arith)),
              )
              | inr f ↦ rw f (λ j.
                  none_above 0 (λ _. a) (λ _. b) (λ _. c) (λ _. d) (λ _. e) (λ _. f) j (positive j))
            ])
          ])
        ])
      ])
    ])
  ]

-- In 16-bit registers, the interrupt to take in M-mode is pending, enabled and not delegated, and none
-- that the specification orders before it is all of that; where there is none to take, no interrupt is.
pub highest_priority_m_ready-IsHighest :
    (s : Interrupts.Interrupts)
    → s.delegate < 2 ^ 16
    → IsHighest (λ i. is_m_ready i s) (Interrupts.highest_priority_m_ready s)
unfolding Interrupts.highest_priority_m_ready Interrupts.find_ready choose
highest_priority_m_ready-IsHighest s h =
    subst (IsHighest (λ i. is_m_ready i s)) (sym found) (choose-IsHighest (λ i. is_m_ready i s))
  where
    found :
        Interrupts.find_ready Interrupts.m_order (Interrupts.m_ready s)
        ≡ choose (λ i. is_m_ready i s)
    found = rw (
      m_ready-bit Interrupt.machine_external_interrupt s h,
      m_ready-bit Interrupt.machine_software_interrupt s h,
      m_ready-bit Interrupt.machine_timer_interrupt s h,
      m_ready-bit Interrupt.supervisor_external_interrupt s h,
      m_ready-bit Interrupt.supervisor_software_interrupt s h,
      m_ready-bit Interrupt.supervisor_timer_interrupt s h,
    )

-- Of the delegated interrupts the choice is made among those of S-level.
abbrev pub is_s_ready : Interrupt → Interrupts.Interrupts → Bool
is_s_ready Interrupt.machine_external_interrupt s = false
is_s_ready Interrupt.machine_software_interrupt s = false
is_s_ready Interrupt.machine_timer_interrupt s = false
is_s_ready Interrupt.supervisor_external_interrupt s =
    bit s.mip 9 && bit s.mie 9 && bit s.delegate 9
is_s_ready Interrupt.supervisor_software_interrupt s =
    bit s.mip 1 && bit s.mie 1 && bit s.delegate 1
is_s_ready Interrupt.supervisor_timer_interrupt s = bit s.mip 5 && bit s.mie 5 && bit s.delegate 5

-- The interrupt to take in S-mode is the highest of the S-level ones that are pending, enabled and
-- delegated.
pub highest_priority_s_ready-IsHighest :
    (s : Interrupts.Interrupts)
    → IsHighest (λ i. is_s_ready i s) (Interrupts.highest_priority_s_ready s)
unfolding Interrupts.highest_priority_s_ready Interrupts.find_ready choose
highest_priority_s_ready-IsHighest s =
    subst (IsHighest (λ i. is_s_ready i s)) (sym found) (choose-IsHighest (λ i. is_s_ready i s))
  where
    at : (k : ℕ) → bit (Interrupts.s_ready s) k ≡ (bit s.mip k && bit s.mie k && bit s.delegate k)
    at k = rw (bit-bit_and (bit_and s.mip s.mie) s.delegate k, bit-bit_and s.mip s.mie k)

    found :
        Interrupts.find_ready Interrupts.s_order (Interrupts.s_ready s)
        ≡ choose (λ i. is_s_ready i s)
    found = rw (at 9, at 1, at 5)

-- In 16-bit registers, the interrupt to take in M-mode is the highest, in the order of the privileged
-- specification, of those that are pending, enabled and not delegated; the one to take in S-mode is the
-- highest of the S-level ones that are pending, enabled and delegated; and none is taken when there is
-- no such interrupt.
pub ready-IsHighest :
    (s : Interrupts.Interrupts)
    → s.delegate < 2 ^ 16
    → IsHighest (λ i. is_m_ready i s) (Interrupts.highest_priority_m_ready s)
      × IsHighest (λ i. is_s_ready i s) (Interrupts.highest_priority_s_ready s)
ready-IsHighest s h = (highest_priority_m_ready-IsHighest s h, highest_priority_s_ready-IsHighest s)
