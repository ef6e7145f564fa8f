-- ===== src/Core/Execute/Returns.antt =====
-- What the returns from traps do to the status register, the privilege mode and `pc`.
use redplanet.Base.{ℕ, ◌≡◌, ◌≢◌, ◌⊎◌, refl, arith, inl, inr, true, false, some, if◌then◌else◌}
use redplanet.Registers.{set_pc}
use redplanet.Privilege.{PrivilegeLevel, RawPrivilegeLevel, lower_than}
use redplanet.Core.Status.{
  Status, mie, mpie, sie, spie, set_mie, set_mpie, set_sie, set_spie, mprv, set_mprv, spp, set_spp,
  mpp, set_mpp, tsr,
}
use redplanet.Core.Machine.{Core, done}
use redplanet.Core.Execute.System

-- The state after a return to `pp` at `epc` with the given status.
abbrev pub returned : {W : Type 0} → ℕ → PrivilegeLevel → Status → Core W → Core W
unfolding set_pc
returned epc pp status c = record {
  registers = set_pc c.registers epc;
  hart = record c.hart { status = status; privilege_mode = pp };
}

-- `s'` is the status after a return to `pp`: the interrupt enable is the previous one, which becomes
-- true, the previous level becomes U, and MPRV is cleared unless the return is to M-mode.
pub record IsMretStatus (s : Status) (pp : PrivilegeLevel) (s' : Status) : Type 0 where
  pub enable : mie s' ≡ mpie s
  pub previous : mpie s' ≡ true
  pub level : mpp s' ≡ some PrivilegeLevel.user
  pub modify : mprv s' ≡ (if System.is_machine pp then mprv s else false)
  pub supervisor : (sie s' ≡ sie s) × (spie s' ≡ spie s) × (spp s' ≡ spp s)

mret_status-IsMretStatus :
    (s : Status) (pp : PrivilegeLevel) → IsMretStatus s pp (System.mret_status pp s)
unfolding System.mret_status System.leave_mprv mie mpie mpp mprv sie spie spp set_mprv set_mpp
    set_mpie set_mie
mret_status-IsMretStatus s PrivilegeLevel.machine = record {
  enable = ground arith;
  previous = ground arith;
  level = ground arith;
  modify = ground arith;
  supervisor = (ground arith, ground arith, ground arith);
}
mret_status-IsMretStatus s PrivilegeLevel.user = record {
  enable = ground arith;
  previous = ground arith;
  level = ground arith;
  modify = ground arith;
  supervisor = (ground arith, ground arith, ground arith);
}
mret_status-IsMretStatus s PrivilegeLevel.supervisor = record {
  enable = ground arith;
  previous = ground arith;
  level = ground arith;
  modify = ground arith;
  supervisor = (ground arith, ground arith, ground arith);
}

-- An `mret` in M-mode under a legal status goes to the address in `mepc` and the level in MPP, with
-- the interrupt enable restored and the other fields of the trap state reset as `IsMretStatus` says.
pub mret-returns :
    {W : Type 0} (c : Core W) (pp : PrivilegeLevel)
    → c.hart.privilege_mode ≡ PrivilegeLevel.machine
    → mpp c.hart.status ≡ some pp
    → (System.mret c ≡ done (returned c.hart.mepc pp (System.mret_status pp c.hart.status) c))
      × IsMretStatus c.hart.status pp (System.mret_status pp c.hart.status)
unfolding System.mret System.mret_to System.return_to
mret-returns c pp m p = (rw (m, p, System.mret_to) refl, mret_status-IsMretStatus c.hart.status pp)

-- The same for `sret`: SPP holds no higher level than S, so MPRV is always cleared.
pub record IsSretStatus (s s' : Status) : Type 0 where
  pub enable : sie s' ≡ spie s
  pub previous : spie s' ≡ true
  pub level : spp s' ≡ PrivilegeLevel.user
  pub modify : mprv s' ≡ false
  pub machine : (mie s' ≡ mie s) × (mpie s' ≡ mpie s) × (mpp s' ≡ mpp s)

spp-cases : (s : Status) → (spp s ≡ PrivilegeLevel.supervisor) ⊎ (spp s ≡ PrivilegeLevel.user)
unfolding spp
spp-cases s = ground arith

cleared-IsSretStatus :
    (s : Status)
    → IsSretStatus s
        (set_mprv false (set_spp RawPrivilegeLevel.user (set_spie true (set_sie (spie s) s))))
unfolding mie mpie mpp mprv sie spie spp set_mprv set_spp set_spie set_sie
cleared-IsSretStatus s = record {
  enable = ground arith;
  previous = ground arith;
  level = ground arith;
  modify = ground arith;
  machine = (ground arith, ground arith, ground arith);
}

sret_status-IsSretStatus : (s : Status) → IsSretStatus s (System.sret_status (spp s) s)
unfolding System.sret_status System.leave_mprv
sret_status-IsSretStatus s = elim (spp-cases s) [
  | inl e ↦ rw e (cleared-IsSretStatus s)
  | inr e ↦ rw e (cleared-IsSretStatus s)
]

-- An `sret` outside U-mode that TSR does not trap goes to the address in `sepc` and the level in
-- SPP, with the interrupt enable restored and the other fields reset as `IsSretStatus` says.
pub sret-returns :
    {W : Type 0} (c : Core W)
    → c.hart.privilege_mode ≢ PrivilegeLevel.user
    → tsr c.hart.status ≡ false
    → (System.sret c
        ≡ done (
            returned c.hart.sepc
              (spp c.hart.status)
              (System.sret_status (spp c.hart.status) c.hart.status)
              c))
      × IsSretStatus c.hart.status (System.sret_status (spp c.hart.status) c.hart.status)
unfolding System.sret System.return_to
sret-returns c ne t =
    (rw (not_user c.hart.privilege_mode ne, t) refl, sret_status-IsSretStatus c.hart.status)
  where
    not_user :
        (p : PrivilegeLevel)
        → p ≢ PrivilegeLevel.user
        → lower_than p PrivilegeLevel.supervisor ≡ false
    not_user PrivilegeLevel.user h = absurd (h refl)
    not_user PrivilegeLevel.supervisor h = refl
    not_user PrivilegeLevel.machine h = refl
