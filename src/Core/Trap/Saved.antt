-- ===== src/Core/Trap/Saved.antt =====
-- What `Core::trap` of red-planet-core/src/core/trap.rs saves, and that `mret` and `sret` of
-- core/execute.rs bring it back.
use redplanet.Base.{
  ℕ, ◌+◌, ◌*◌, ◌%◌, ◌^◌, none, ◌≡◌, refl, arith, Bool, true, false, not, ◌&&◌, some, ◌∙◌,
}
use redplanet.Registers.{Registers, set_pc}
use redplanet.Privilege.{PrivilegeLevel}
use redplanet.Core.Machine.{Core, Outcome, done, raised, panicked}
use redplanet.Core.Status.{
  Status, mie, sie, mpie, spie, mpp, spp, tsr, set_mie, set_sie, set_mpie, set_spie, set_mpp,
  set_spp,
}
use redplanet.Core.Cause.{Cause, cause_code}
use redplanet.Core.Trap
use redplanet.Core.Trap.Entry
use redplanet.Core.State.{Rest}
use redplanet.Core.Execute.Returns.{mret-returns, sret-returns}
use redplanet.Core.Execute.System.{mret, sret}

-- A trap from `s` to M-mode leaves `s'`: interrupts are off, the enable and the level are saved.
pub record IsMTrapStatus (level : PrivilegeLevel) (s s' : Status) : Type 0 where
  pub enable : mie s' ≡ false
  pub saved : mpie s' ≡ mie s
  pub previous : mpp s' ≡ some level
  pub supervisor : (sie s' ≡ sie s) × (spie s' ≡ spie s) × (spp s' ≡ spp s)

m_status-IsMTrapStatus :
    (level : PrivilegeLevel) (s : Status)
    → IsMTrapStatus level s (set_mpp (Entry.raw_level level) (set_mie false (set_mpie (mie s) s)))
unfolding mie mpie mpp sie spie spp set_mpp set_mie set_mpie
m_status-IsMTrapStatus PrivilegeLevel.user s = record {
  enable = ground arith;
  saved = ground arith;
  previous = ground arith;
  supervisor = (ground arith, ground arith, ground arith);
}
m_status-IsMTrapStatus PrivilegeLevel.supervisor s = record {
  enable = ground arith;
  saved = ground arith;
  previous = ground arith;
  supervisor = (ground arith, ground arith, ground arith);
}
m_status-IsMTrapStatus PrivilegeLevel.machine s = record {
  enable = ground arith;
  saved = ground arith;
  previous = ground arith;
  supervisor = (ground arith, ground arith, ground arith);
}

-- The same for S-mode, of which M-mode does not make use.
pub record IsSTrapStatus (level : PrivilegeLevel) (s s' : Status) : Type 0 where
  pub enable : sie s' ≡ false
  pub saved : spie s' ≡ sie s
  pub previous : spp s' ≡ level
  pub machine : (mie s' ≡ mie s) × (mpie s' ≡ mpie s) × (mpp s' ≡ mpp s)

s_status-IsSTrapStatus :
    (level : PrivilegeLevel) (s : Status)
    → Entry.is_machine level ≡ false
    → IsSTrapStatus level s (set_spp (Entry.raw_level level) (set_sie false (set_spie (sie s) s)))
unfolding mie mpie mpp sie spie spp set_spp set_sie set_spie
s_status-IsSTrapStatus PrivilegeLevel.user s h = record {
  enable = ground arith;
  saved = ground arith;
  previous = ground arith;
  machine = (ground arith, ground arith, ground arith);
}
s_status-IsSTrapStatus PrivilegeLevel.supervisor s h = record {
  enable = ground arith;
  saved = ground arith;
  previous = ground arith;
  machine = (ground arith, ground arith, ground arith);
}
s_status-IsSTrapStatus PrivilegeLevel.machine s h = absurd (cc h)

s_status-tsr :
    (level : PrivilegeLevel) (s : Status)
    → tsr (set_spp (Entry.raw_level level) (set_sie false (set_spie (sie s) s))) ≡ tsr s
unfolding tsr set_spp set_sie set_spie sie
s_status-tsr PrivilegeLevel.user s = ground arith
s_status-tsr PrivilegeLevel.supervisor s = ground arith
s_status-tsr PrivilegeLevel.machine s = ground arith

outside_of : (m d : Bool) → (not m && d) ≡ true → m ≡ false
outside_of m d h = ground arith

-- Where a trap goes: interrupts under a vectored mode have a word each behind the base.
abbrev pub handler : (base : ℕ) → Trap.VectorMode → Cause → ℕ
handler base Trap.VectorMode.vectored (Cause.interrupt i) =
    (base + 4 * Trap.interrupt_number_or_zero i) % 2 ^ 32
handler base Trap.VectorMode.vectored (Cause.exception e) = base
handler base Trap.VectorMode.direct cause = base

module _ {B : Type 0} where
  -- `c'` is `c` after a trap to M-mode: all that is not named here stays.
  pub record IsMTrap (cause : Cause) (c c' : Core (Rest B)) : Type 0 where
    pub level : c'.hart.privilege_mode ≡ PrivilegeLevel.machine
    pub status : IsMTrapStatus c.hart.privilege_mode c.hart.status c'.hart.status
    pub mepc : c'.hart.mepc ≡ c.registers.pc
    pub sepc : c'.hart.sepc ≡ c.hart.sepc
    pub trap : c'.hart.rest.trap ≡ record c.hart.rest.trap {
      last_m_trap_cause = cause;
      mcause_override = none;
      mtval = Entry.trap_value cause c.registers.pc;
      mtval2 = 0;
      mtinst = 0;
    }
    pub registers : c'.registers ≡ record c.registers {
      pc = handler c.hart.rest.trap.m_vector_base_address c.hart.rest.trap.m_vector_mode cause;
    }
    pub kept : c'.hart.rest ≡ record c.hart.rest { trap = c'.hart.rest.trap }

  pub record IsSTrap (cause : Cause) (c c' : Core (Rest B)) : Type 0 where
    pub level : c'.hart.privilege_mode ≡ PrivilegeLevel.supervisor
    pub status : IsSTrapStatus c.hart.privilege_mode c.hart.status c'.hart.status
    pub sepc : c'.hart.sepc ≡ c.registers.pc
    pub mepc : c'.hart.mepc ≡ c.hart.mepc
    pub trap : c'.hart.rest.trap ≡ record c.hart.rest.trap {
      last_s_trap_cause = cause;
      scause_override = none;
      stval = Entry.trap_value cause c.registers.pc;
    }
    pub registers : c'.registers ≡ record c.registers {
      pc = handler c.hart.rest.trap.s_vector_base_address c.hart.rest.trap.s_vector_mode cause;
    }
    pub kept : c'.hart.rest ≡ record c.hart.rest { trap = c'.hart.rest.trap }

  -- The branch of the delegation: from U- and S-mode only.
  unfoldable pub goes_to_s : Cause → Core (Rest B) → Bool
  unfolding Entry.should_delegate_cause
  goes_to_s cause c =
      not (Entry.is_machine c.hart.privilege_mode)
      && Entry.should_delegate_cause (cause_code cause) c.hart.rest

  -- The outcome of a return is the registers, the level and the interrupt enables of before.
  abbrev pub IsBack : Core (Rest B) → Outcome (Rest B) → Type 0
  IsBack c (done c') =
      (c'.registers ≡ c.registers)
      × (c'.hart.privilege_mode ≡ c.hart.privilege_mode)
      × (mie c'.hart.status ≡ mie c.hart.status)
      × (sie c'.hart.status ≡ sie c.hart.status)
  IsBack c (raised e c') = ⊥
  IsBack c (panicked p) = ⊥

  -- An `mret` right after a trap to M-mode, without a change of mepc and the status, restores all
  -- registers with `pc`, the level and the interrupt enables of both modes.
  pub mret-trap :
      (cause : Cause) (c : Core (Rest B))
      → goes_to_s cause c ≡ false
      → IsBack c (mret (Entry.trap cause c))
  unfolding goes_to_s Entry.trap Entry.trap_to_m_mode Trap.set_m_trap_cause set_pc
  mret-trap cause c e =
      let saved = m_status-IsMTrapStatus c.hart.privilege_mode c.hart.status in
      let (returns, back) =
        mret-returns (Entry.trap_to_m_mode cause c) c.hart.privilege_mode refl saved.previous in
      rw (e, returns)
        (refl, refl, back.enable ∙ saved.saved, back.supervisor.0 ∙ saved.supervisor.0)

  -- An `sret` right after a trap to S-mode, under a status that lets S-mode return, does the same.
  pub sret-trap :
      (cause : Cause) (c : Core (Rest B))
      → goes_to_s cause c ≡ true
      → tsr c.hart.status ≡ false
      → IsBack c (sret (Entry.trap cause c))
  unfolding goes_to_s Entry.trap Entry.trap_to_s_mode Trap.set_s_trap_cause set_pc
  sret-trap cause c e t =
      let saved = s_status-IsSTrapStatus c.hart.privilege_mode c.hart.status (outside_of _ _ e) in
      let (returns, back) =
        sret-returns (Entry.trap_to_s_mode cause c) (λ h. cc h)
          (s_status-tsr c.hart.privilege_mode c.hart.status ∙ t) in
      rw (e, returns)
        (refl, saved.previous, back.machine.0 ∙ saved.machine.0, back.enable ∙ saved.saved)
