-- ===== src/Core/Step/Interrupted.antt =====
-- What a step does when an interrupt is ready: `check_for_interrupts` of red-planet-core/src/core/mod.rs
-- with `highest_priority_ready_interrupt` of core/interrupts.rs.
use redplanet.Base.{
  ℕ, ◌^◌, ◌<◌, ◌≡◌, ◌⊎◌, ◌==◌, refl, arith, Bool, true, false, not, ◌&&◌, ◌∙◌, sym, ap, Option,
  none, some, if◌then◌else◌, inl, inr,
}
use redplanet.Privilege.{PrivilegeLevel}
use redplanet.Core.Machine.{Core}
use redplanet.Core.Status.{mie}
use redplanet.Core.Cause.{Interrupt, Cause}
use redplanet.Core.Interrupts.{highest_priority_m_ready}
use redplanet.Core.Interrupts.Priority.{
  IsHighest, priority, is_m_ready, is_s_ready, highest_priority_m_ready-IsHighest,
  highest_priority_s_ready-IsHighest,
}
use redplanet.Core.Trap.Entry.{is_machine, trap, trap_to_m_mode}
use redplanet.Core.State.{Rest, Config, SystemBus}
use redplanet.Core.Step
use redplanet.Core.Step.{stepped}

of_priority : ℕ → Interrupt
of_priority n =
    if n == 6
    then Interrupt.machine_external_interrupt
    else if n == 5
    then Interrupt.machine_software_interrupt
    else if n == 4
    then Interrupt.machine_timer_interrupt
    else if n == 3
    then Interrupt.supervisor_external_interrupt
    else if n == 2
    then Interrupt.supervisor_software_interrupt
    else Interrupt.supervisor_timer_interrupt

of_priority-priority : (i : Interrupt) → of_priority (priority i) ≡ i
unfolding of_priority
of_priority-priority Interrupt.machine_external_interrupt = refl
of_priority-priority Interrupt.machine_software_interrupt = refl
of_priority-priority Interrupt.machine_timer_interrupt = refl
of_priority-priority Interrupt.supervisor_external_interrupt = refl
of_priority-priority Interrupt.supervisor_software_interrupt = refl
of_priority-priority Interrupt.supervisor_timer_interrupt = refl

trichotomy : (m n : ℕ) → (m < n) ⊎ (n < m) ⊎ (m ≡ n)
trichotomy m n = ground arith

-- The highest is unique.
highest_unique :
    (ready : Interrupt → Bool) (o : Option Interrupt) (i : Interrupt)
    → IsHighest ready o
    → IsHighest ready (some i)
    → o ≡ some i
highest_unique ready none i h (r, k) = absurd (cc (h i, r))
highest_unique ready (some j) i (s, h) (r, k) = elim (trichotomy (priority i) (priority j)) [
  | inl a ↦ absurd (cc (k j a, s))
  | inr (inl b) ↦ absurd (cc (h i b, r))
  | inr (inr e) ↦
      ap some (sym (of_priority-priority j) ∙ sym (ap of_priority e) ∙ of_priority-priority i)
]

module _ {B : Type 0} (config : Config) (bus : SystemBus B) (c : Core (Rest B))
    (i : Interrupt) where
  interrupted :
      Step.highest_priority_ready_interrupt c.hart ≡ some i
      → Step.step config bus c ≡ stepped (trap (Cause.interrupt (some i)) c)
  unfolding Step.step Step.check_for_interrupts
  interrupted e = rw e refl

  -- When an interrupt that is not delegated is pending and enabled and heads those that are, in 16-bit
  -- registers, then a step outside M-mode, and a step in M-mode with MIE set, takes the trap of that
  -- interrupt and runs no instruction.
  pub step-takes_ready :
      c.hart.rest.interrupts.delegate < 2 ^ 16
      → IsHighest (λ j. is_m_ready j c.hart.rest.interrupts) (some i)
      → (is_machine c.hart.privilege_mode && not (mie c.hart.status)) ≡ false
      → Step.step config bus c ≡ stepped (trap (Cause.interrupt (some i)) c)
  unfolding Step.highest_priority_ready_interrupt
  step-takes_ready d h m = interrupted chosen
    where
      found : highest_priority_m_ready c.hart.rest.interrupts ≡ some i
      found = highest_unique _ _ i (highest_priority_m_ready-IsHighest c.hart.rest.interrupts d) h

      chosen : Step.highest_priority_ready_interrupt c.hart ≡ some i
      chosen = rw (m, found) refl

  -- In M-mode with MIE set and a 16-bit delegation register, where no interrupt that is not delegated is pending and enabled, the one that
  -- heads the pending and enabled delegated interrupts is taken all the same, and handled in M-mode.
  pub step-takes_delegated :
      c.hart.rest.interrupts.delegate < 2 ^ 16
      → c.hart.privilege_mode ≡ PrivilegeLevel.machine
      → mie c.hart.status ≡ true
      → IsHighest (λ j. is_m_ready j c.hart.rest.interrupts) none
      → IsHighest (λ j. is_s_ready j c.hart.rest.interrupts) (some i)
      → Step.step config bus c ≡ stepped (trap_to_m_mode (Cause.interrupt (some i)) c)
  unfolding trap Step.highest_priority_ready_interrupt
  step-takes_delegated d p m none_ready h = rw (interrupted chosen, p) refl
    where
      nothing :
          (o : Option Interrupt) → IsHighest (λ j. is_m_ready j c.hart.rest.interrupts) o → o ≡ none
      nothing none k = refl
      nothing (some j) (r, k) = absurd (cc (none_ready j, r))

      chosen : Step.highest_priority_ready_interrupt c.hart ≡ some i
      chosen =
          rw
            (
              p,
              m,
              nothing _ (highest_priority_m_ready-IsHighest c.hart.rest.interrupts d),
              highest_unique _ _ i (highest_priority_s_ready-IsHighest c.hart.rest.interrupts) h,
            )
            refl
