-- ===== src/Core/Status/Csr.antt =====
-- The writes of the status registers by CSR instructions, red-planet-core/src/core/status.rs.
use redplanet.Base.{
  ℕ, ◌+◌, ◌/◌, ◌%◌, ◌^◌, Bool, true, false, ◌||◌, Option, some, none, bit, bit_and, masked,
}
use redplanet.Privilege.{RawPrivilegeLevel, raw_from_u2}
use redplanet.Core.Status.{
  Status, sstatus_mask, load_u2, set_mie, set_sie, set_mpie, set_spie, set_mprv, set_mxr, set_sum,
  set_ube, set_tvm, set_tw, set_tsr, set_mpp, set_spp, set_fs, set_vs, set_mbe, set_sbe,
}

-- `if condition { status.set(..) }`
abbrev pub when : Bool → (Status → Status) → Status → Status
when true f s = f s
when false f s = s

-- `set_spp(RawPrivilegeLevel::from_u2(v as u8))` and `set_mpp(RawPrivilegeLevel::from_u2(v))`; two
-- bits always are a level.
abbrev pub set_raw :
    (RawPrivilegeLevel → Status → Status) → Option RawPrivilegeLevel → Status → Status
set_raw f none s = s
set_raw f (some level) s = f level s

abbrev pub either_bit : ℕ → ℕ → Bool
either_bit a i = bit a i || bit a (i + 1)

-- The updates of the fields in the order of the source. `mask_bits` are the bits that it tests and
-- `updated` the bits that it stores.
abbrev pub update_fields : (mask_bits updated : ℕ) → Status → Status
update_fields mask_bits updated s =
    let s = when (bit mask_bits 1) (set_sie (bit updated 1)) s in
    let s = when (bit mask_bits 3) (set_mie (bit updated 3)) s in
    let s = when (bit mask_bits 5) (set_spie (bit updated 5)) s in
    let s = when (bit mask_bits 6) (set_ube (bit updated 6)) s in
    let s = when (bit mask_bits 7) (set_mpie (bit updated 7)) s in
    let s = when (bit mask_bits 8) (set_raw set_spp (raw_from_u2 (updated / 2 ^ 8 % 2))) s in
    let s = when (either_bit mask_bits 9) (set_vs (load_u2 updated 9)) s in
    let s = when (either_bit mask_bits 11) (set_raw set_mpp (raw_from_u2 (load_u2 updated 11))) s in
    let s = when (either_bit mask_bits 13) (set_fs (load_u2 updated 13)) s in
    let s = when (bit mask_bits 17) (set_mprv (bit updated 17)) s in
    let s = when (bit mask_bits 18) (set_sum (bit updated 18)) s in
    let s = when (bit mask_bits 19) (set_mxr (bit updated 19)) s in
    let s = when (bit mask_bits 20) (set_tvm (bit updated 20)) s in
    let s = when (bit mask_bits 20) (set_tvm (bit updated 20)) s in
    let s = when (bit mask_bits 21) (set_tw (bit updated 21)) s in
    let s = when (bit mask_bits 22) (set_tsr (bit updated 22)) s in s

-- The bits tested are those of `value`, not of `mask`.
unfoldable pub write_mstatus : (value mask : ℕ) → Status → Status
write_mstatus value mask s = update_fields value (masked s.mstatus value mask) s

unfoldable pub write_mstatush : (value mask : ℕ) → Status → Status
write_mstatush value mask s =
    let s = when (bit mask 5) (set_mbe (bit value 5)) s in
    when (bit mask 4) (set_sbe (bit value 4)) s

unfoldable pub read_mstatus : Status → ℕ
read_mstatus s = s.mstatus

unfoldable pub read_mstatush : Status → ℕ
read_mstatush s = s.mstatush

unfoldable pub read_sstatus : Status → ℕ
read_sstatus s = bit_and s.mstatus sstatus_mask

unfoldable pub write_sstatus : (value mask : ℕ) → Status → Status
unfolding write_mstatus
write_sstatus value mask s = write_mstatus value (bit_and mask sstatus_mask) s
