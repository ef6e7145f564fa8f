-- ===== src/Core/Status.antt =====
-- The mstatus, mstatush and sstatus registers, red-planet-core/src/core/status.rs. A register is the
-- number of its 32 bits; `none` is the panic of a field that holds a reserved value.
pub mod Csr
pub mod Laws
use redplanet.Base.{
  ℕ, ◌+◌, ◌*◌, ◌/◌, ◌%◌, ◌^◌, ◌==◌, Bool, true, false, ◌||◌, Option, some, none, ltb, leb,
  if◌then◌else◌, bit, set_bit, bit_and, masked,
}
use redplanet.Privilege.{RawPrivilegeLevel, PrivilegeLevel, raw_from_u2, try_from, as_u8}

abbrev pub sstatus_mask : ℕ
sstatus_mask = 0b1111_1111_1000_1101_1110_0111_0111_0111

pub record Status : Type 0 where
  pub mstatus : ℕ
  pub mstatush : ℕ

unfoldable pub new : Status
new = record { mstatus = 0; mstatush = 0 }

-- A flag of mstatus and of mstatush, by its index in the modules `idx` and `hidx`.
abbrev pub set_flag : ℕ → Bool → Status → Status
set_flag i v s = record s { mstatus = set_bit s.mstatus i v }

abbrev pub set_hflag : ℕ → Bool → Status → Status
set_hflag i v s = record s { mstatush = set_bit s.mstatush i v }

-- `view_bits::<Lsb0>()[i..i + 2].load_le()` and `.store_le(v)`.
abbrev pub load_u2 : ℕ → ℕ → ℕ
load_u2 a i = a / 2 ^ i % 4

abbrev pub store_u2 : ℕ → ℕ → ℕ → ℕ
store_u2 a i v = a / 2 ^ (i + 2) * 2 ^ (i + 2) + v * 2 ^ i + a % 2 ^ i

unfoldable pub mie : Status → Bool
mie s = bit s.mstatus 3

unfoldable pub set_mie : Bool → Status → Status
set_mie v s = set_flag 3 v s

unfoldable pub sie : Status → Bool
sie s = bit s.mstatus 1

unfoldable pub set_sie : Bool → Status → Status
set_sie v s = set_flag 1 v s

unfoldable pub mpie : Status → Bool
mpie s = bit s.mstatus 7

unfoldable pub set_mpie : Bool → Status → Status
set_mpie v s = set_flag 7 v s

unfoldable pub spie : Status → Bool
spie s = bit s.mstatus 5

unfoldable pub set_spie : Bool → Status → Status
set_spie v s = set_flag 5 v s

unfoldable pub mprv : Status → Bool
mprv s = bit s.mstatus 17

unfoldable pub set_mprv : Bool → Status → Status
set_mprv v s = set_flag 17 v s

unfoldable pub mxr : Status → Bool
mxr s = bit s.mstatus 19

unfoldable pub set_mxr : Bool → Status → Status
set_mxr v s = set_flag 19 v s

unfoldable pub sum : Status → Bool
sum s = bit s.mstatus 18

unfoldable pub set_sum : Bool → Status → Status
set_sum v s = set_flag 18 v s

unfoldable pub ube : Status → Bool
ube s = bit s.mstatus 6

unfoldable pub set_ube : Bool → Status → Status
set_ube v s = set_flag 6 v s

unfoldable pub tvm : Status → Bool
tvm s = bit s.mstatus 20

unfoldable pub set_tvm : Bool → Status → Status
set_tvm v s = set_flag 20 v s

unfoldable pub tw : Status → Bool
tw s = bit s.mstatus 21

unfoldable pub set_tw : Bool → Status → Status
set_tw v s = set_flag 21 v s

unfoldable pub tsr : Status → Bool
tsr s = bit s.mstatus 22

unfoldable pub set_tsr : Bool → Status → Status
set_tsr v s = set_flag 22 v s

unfoldable pub mbe : Status → Bool
mbe s = bit s.mstatush 5

unfoldable pub set_mbe : Bool → Status → Status
set_mbe v s = set_hflag 5 v s

unfoldable pub sbe : Status → Bool
sbe s = bit s.mstatush 4

unfoldable pub set_sbe : Bool → Status → Status
set_sbe v s = set_hflag 4 v s

-- `try_into().unwrap()`
abbrev pub unwrap_level : Option RawPrivilegeLevel → Option PrivilegeLevel
unwrap_level none = none
unwrap_level (some level) = try_from level

unfoldable pub mpp : Status → Option PrivilegeLevel
mpp s = unwrap_level (raw_from_u2 (load_u2 s.mstatus 11))

abbrev pub store_mpp : Option PrivilegeLevel → Status → Status
store_mpp none s = s
store_mpp (some level) s = record s { mstatus = store_u2 s.mstatus 11 (as_u8 level) }

unfoldable pub set_mpp : RawPrivilegeLevel → Status → Status
set_mpp value s = store_mpp (try_from value) s

-- The bit is a level below 2, so nothing is there to unwrap.
unfoldable pub spp : Status → PrivilegeLevel
spp s = if bit s.mstatus 8 then PrivilegeLevel.supervisor else PrivilegeLevel.user

unfoldable pub set_spp : RawPrivilegeLevel → Status → Status
set_spp RawPrivilegeLevel.user s = set_flag 8 false s
set_spp RawPrivilegeLevel.supervisor s = set_flag 8 true s
set_spp RawPrivilegeLevel.reserved s = s
set_spp RawPrivilegeLevel.machine s = s

-- The extension context fields hold the two-bit numbers of `ExtensionContextStatus`.
unfoldable pub fs : Status → ℕ
fs s = load_u2 s.mstatus 13

unfoldable pub vs : Status → ℕ
vs s = load_u2 s.mstatus 9

unfoldable pub xs : Status → ℕ
xs s = load_u2 s.mstatus 15

abbrev pub dirty : ℕ
dirty = 3

unfoldable pub sd : Status → Bool
sd s = bit s.mstatus 31

unfoldable pub update_sd : Status → Status
unfolding fs vs xs
update_sd s = set_flag 31 (fs s == dirty || vs s == dirty || xs s == dirty) s

unfoldable pub set_fs : ℕ → Status → Status
unfolding update_sd
set_fs v s = update_sd (record s { mstatus = store_u2 s.mstatus 13 v })

unfoldable pub set_vs : ℕ → Status → Status
unfolding update_sd
set_vs v s = update_sd (record s { mstatus = store_u2 s.mstatus 9 v })
