-- ===== src/Core/Csr/Laws.antt =====
-- The protection of the CSRs, and which ones stand for one another: `read_csr` and `write_csr` of
-- red-planet-core/src/core/mod.rs.
use redplanet.Base.{
  ℕ, ◌/◌, ◌%◌, ◌^◌, ◌<◌, ◌≡◌, ◌≢◌, ◌==◌, refl, arith, Bool, true, false, not, Option, none, some,
  if◌then◌else◌,
}
use redplanet.Privilege.{PrivilegeLevel, raw_from_u2, as_u8}
use redplanet.Instruction.Types.{CsrSpecifier}
use redplanet.Core.Machine.{Hart, Core, Result, CsrAccessError, success, failure, crashed}
use redplanet.Core.State.{Rest, Config, SystemBus}
use redplanet.Core.Csr
use redplanet.Core.Cause.{Cause}
use redplanet.Core.Trap.{cause_number}
use redplanet.Core.Trap.Entry.{trap_to_s_mode}
use redplanet.Core.Csr.Names.{Csr, name_of}
use redplanet.Core.Csr.Read
use redplanet.Core.Csr.Write
use redplanet.Core.Trap
use redplanet.Core.Csr.Read.{CsrReadResult, read_csr}
use redplanet.Core.Csr.Write.{CsrWriteResult, write_csr}

-- The level that bits 9 and 8 of the number ask for is above the level of the access.
abbrev pub IsPrivileged : CsrSpecifier → PrivilegeLevel → Type 0
IsPrivileged s level = as_u8 level < s / 2 ^ 8 % 4

level_error-denies :
    (s : CsrSpecifier) (level : PrivilegeLevel)
    → IsPrivileged s level
    → Csr.level_error s level (raw_from_u2 (s / 2 ^ 8 % 4)) ≢ none
level_error-denies s PrivilegeLevel.user h = ground (arith, h)
level_error-denies s PrivilegeLevel.supervisor h = ground (arith, h)
level_error-denies s PrivilegeLevel.machine h = absurd (omega (arith, h))

check-denies :
    (s : CsrSpecifier) (level : PrivilegeLevel)
    → IsPrivileged s level
    → Csr.check_csr_access s level ≢ none
unfolding Csr.check_csr_access Csr.is_valid Csr.required_privilege_level
check-denies s level h = go (Csr.is_valid s)
  where
    go :
        (b : Bool)
        → (if not b
            then some (CsrAccessError.csr_unsupported s)
            else Csr.level_error s level (Csr.required_privilege_level s))
          ≢ none
    go true e = level_error-denies s level h e
    go false e = cc e

module _ {B : Type 0} (h : Hart (Rest B)) where
  abbrev pub IsUnchanged : {E A : Type 0} → Result E (Hart (Rest B)) A → Type 0
  IsUnchanged (success value h') = Unit
  IsUnchanged (failure e h') = h' ≡ h
  IsUnchanged (crashed p) = Unit

  -- The access fails and changes nothing.
  abbrev pub IsDenied : {E A : Type 0} → Result E (Hart (Rest B)) A → Type 0
  IsDenied (success value h') = ⊥
  IsDenied (failure e h') = h' ≡ h
  IsDenied (crashed p) = ⊥

  -- An access from a level below the one that bits 9 and 8 of the number ask for is denied, be it a
  -- read or a write, and changes nothing.
  pub access-IsDenied :
      (config : Config) (bus : SystemBus B) (s : CsrSpecifier) (level : PrivilegeLevel)
      (value mask : ℕ)
      → IsPrivileged s level
      → IsDenied (read_csr config bus s level h) × IsDenied (write_csr s level value mask h)
  unfolding read_csr write_csr
  access-IsDenied config bus s level value mask k =
      (read _ _ (check-denies s level k), write _ _ _ (check-denies s level k))
    where
      read :
          (o : Option CsrAccessError) (r : CsrReadResult B)
          → o ≢ none
          → IsDenied (Read.unless_denied o h r)
      read none r ne = absurd (ne refl)
      read (some e) r ne = refl

      write :
          (o : Option CsrAccessError) (b : Bool) (r : CsrWriteResult B)
          → o ≢ none
          → IsDenied (Write.unless_denied o b h r)
      write none b r ne = absurd (ne refl)
      write (some e) b r ne = refl

  -- So is a write, from any level, to a number whose two highest bits are ones.
  pub read_only-IsDenied :
      (s : CsrSpecifier) (level : PrivilegeLevel) (value mask : ℕ)
      → s / 2 ^ 10 ≡ 3
      → IsDenied (write_csr s level value mask h)
  unfolding write_csr Csr.is_read_only
  read_only-IsDenied s level value mask k = read_only _ _ (equal k)
    where
      equal : s / 2 ^ 10 ≡ 3 → (s / 2 ^ 10 == 0b11) ≡ true
      equal k = ground (arith, k)

      read_only :
          (o : Option CsrAccessError) (r : CsrWriteResult B)
          → {b : Bool} → b ≡ true
          → IsDenied (Write.unless_denied o b h r)
      read_only none r e = rw e refl
      read_only (some _) r e = refl

  -- senvcfg reads and writes menvcfg: in M-mode the two numbers are one register.
  pub senvcfg-aliases_menvcfg :
      (config : Config) (bus : SystemBus B) (value mask : ℕ)
      → (read_csr config bus 0x10A PrivilegeLevel.machine h
          ≡ read_csr config bus 0x30A PrivilegeLevel.machine h)
        × (write_csr 0x10A PrivilegeLevel.machine value mask h
            ≡ write_csr 0x30A PrivilegeLevel.machine value mask h)
  unfolding read_csr write_csr Read.read_named Write.write_named name_of
  senvcfg-aliases_menvcfg config bus value mask = (refl, refl)

  write_named-IsUnchanged :
      (s : CsrSpecifier) (k : Csr) (value mask : ℕ)
      → IsUnchanged (Write.write_named s k value mask h)
  unfolding Write.write_named Write.write_satp
  write_named-IsUnchanged s k value mask = ground arith

  read_named-IsUnchanged :
      (config : Config) (bus : SystemBus B) (s : CsrSpecifier) (k : Csr)
      → IsUnchanged (Read.read_named config bus s k h)
  unfolding Read.read_named Read.read_time Read.read_timeh Read.read_hpmcounter Read.read_satp
  read_named-IsUnchanged config bus s k = ground arith

  -- A read or a write of a CSR that fails, for whatever number, level, value and mask, leaves all of
  -- the state as it was.
  pub failure-IsUnchanged :
      (config : Config) (bus : SystemBus B) (s : CsrSpecifier) (level : PrivilegeLevel)
      (value mask : ℕ)
      → IsUnchanged (read_csr config bus s level h) × IsUnchanged (write_csr s level value mask h)
  unfolding read_csr write_csr
  failure-IsUnchanged config bus s level value mask = (
    read _ _ (read_named-IsUnchanged config bus s (name_of s)),
    write _ _ _ (write_named-IsUnchanged s (name_of s) value mask),
  )
    where
      read :
          (o : Option CsrAccessError) (r : CsrReadResult B)
          → IsUnchanged r
          → IsUnchanged (Read.unless_denied o h r)
      read none r k = k
      read (some e) r k = refl

      write :
          (o : Option CsrAccessError) (b : Bool) (r : CsrWriteResult B)
          → IsUnchanged r
          → IsUnchanged (Write.unless_denied o b h r)
      write none true r k = refl
      write none false r k = k
      write (some e) b r k = refl

-- Right after a trap to S-mode, scause reads as the cause of the last trap to M-mode, not as the cause
-- of the trap that was taken.
pub scause-after_trap :
    {B : Type 0} (config : Config) (bus : SystemBus B) (cause : Cause) (c : Core (Rest B))
    → read_csr config bus 0x142 PrivilegeLevel.supervisor (trap_to_s_mode cause c).hart
      ≡ success (cause_number c.hart.rest.trap.last_m_trap_cause) (trap_to_s_mode cause c).hart
unfolding read_csr Read.read_named name_of Trap.read_scause Trap.read_cause trap_to_s_mode
    Trap.set_s_trap_cause
scause-after_trap config bus cause c = refl
