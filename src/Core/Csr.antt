-- ===== src/Core/Csr.antt =====
-- The addresses of the CSRs, red-planet-core/src/core/csr.rs, and the reads and writes by address,
-- `read_csr` and `write_csr` of core/mod.rs. A constant of csr.rs is a constructor of `Csr`, found by
-- its number; the numbered counters are one constructor each.
pub mod Names
pub mod Read
pub mod Write
pub mod Sound
pub mod Laws
use redplanet.Base.{
  ℕ, ◌/◌, ◌%◌, ◌^◌, ◌==◌, ltb, Bool, true, false, not, Option, none, some, if◌then◌else◌,
}
use redplanet.Privilege.{RawPrivilegeLevel, PrivilegeLevel, raw_from_u2, as_u8}
use redplanet.Instruction.Types.{CsrSpecifier}
use redplanet.Core.Machine.{CsrAccessError}

unfoldable pub is_valid : CsrSpecifier → Bool
is_valid specifier = ltb specifier (2 ^ 12)

unfoldable pub is_read_only : CsrSpecifier → Bool
is_read_only specifier = specifier / 2 ^ 10 == 0b11

-- Two bits always are a level.
unfoldable pub required_privilege_level : CsrSpecifier → Option RawPrivilegeLevel
required_privilege_level specifier = raw_from_u2 (specifier / 2 ^ 8 % 4)

abbrev pub raw_as_u8 : RawPrivilegeLevel → ℕ
raw_as_u8 RawPrivilegeLevel.user = 0
raw_as_u8 RawPrivilegeLevel.supervisor = 1
raw_as_u8 RawPrivilegeLevel.reserved = 2
raw_as_u8 RawPrivilegeLevel.machine = 3

-- `PartialOrd<RawPrivilegeLevel> for PrivilegeLevel`
abbrev pub level_error :
    CsrSpecifier → PrivilegeLevel → Option RawPrivilegeLevel → Option CsrAccessError
level_error specifier level none = none
level_error specifier level (some required) =
    if ltb (as_u8 level) (raw_as_u8 required)
    then some (CsrAccessError.privileged specifier required level)
    else none

-- The error of an access that is not allowed.
unfoldable pub check_csr_access : CsrSpecifier → PrivilegeLevel → Option CsrAccessError
unfolding is_valid required_privilege_level
check_csr_access specifier privilege_level =
    if not (is_valid specifier)
    then some (CsrAccessError.csr_unsupported specifier)
    else level_error specifier privilege_level (required_privilege_level specifier)
