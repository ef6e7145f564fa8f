-- ===== src/Privilege.antt =====
-- The privilege levels, red-planet-core/src/lib.rs.
use redplanet.Base.{ℕ, Bool, ltb, ◌==◌, if◌then◌else◌, Option, some, none}

pub data RawPrivilegeLevel : Type 0 where
  user supervisor reserved machine : RawPrivilegeLevel

pub data PrivilegeLevel : Type 0 where
  user supervisor machine : PrivilegeLevel

-- `None` for the panic.
abbrev pub raw_from_u2 : ℕ → Option RawPrivilegeLevel
raw_from_u2 v =
    if v == 0
    then some RawPrivilegeLevel.user
    else if v == 1
    then some RawPrivilegeLevel.supervisor
    else if v == 2
    then some RawPrivilegeLevel.reserved
    else if v == 3
    then some RawPrivilegeLevel.machine
    else none

-- `TryFrom<RawPrivilegeLevel>`
abbrev pub try_from : RawPrivilegeLevel → Option PrivilegeLevel
try_from RawPrivilegeLevel.user = some PrivilegeLevel.user
try_from RawPrivilegeLevel.supervisor = some PrivilegeLevel.supervisor
try_from RawPrivilegeLevel.reserved = none
try_from RawPrivilegeLevel.machine = some PrivilegeLevel.machine

-- The discriminants, by which the levels are ordered.
abbrev pub as_u8 : PrivilegeLevel → ℕ
as_u8 PrivilegeLevel.user = 0
as_u8 PrivilegeLevel.supervisor = 1
as_u8 PrivilegeLevel.machine = 3

abbrev pub lower_than : PrivilegeLevel → PrivilegeLevel → Bool
lower_than a b = ltb (as_u8 a) (as_u8 b)
