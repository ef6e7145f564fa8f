-- ===== src/Core/Status/Laws.antt =====
-- The previous privilege level that mstatus keeps is never the reserved one, so no read of it
-- panics.
use redplanet.Base.{
  ℕ, ◌/◌, ◌%◌, ◌^◌, ◌<◌, ◌≡◌, ◌≢◌, refl, arith, Bool, true, false, Option, some, none, bit,
}
use redplanet.Privilege.{RawPrivilegeLevel}
use redplanet.Core.Status.{
  Status, load_u2, store_u2, set_mie, set_sie, set_mpie, set_spie, set_mprv, set_mxr, set_sum,
  set_ube, set_tvm, set_tw, set_tsr, set_mpp, set_spp, set_fs, set_vs, mpp, update_sd, set_mbe,
  set_sbe,
}
use redplanet.Core.Status.Csr.{
  when, set_raw, update_fields, write_mstatus, write_sstatus, write_mstatush,
}

-- A 32-bit register whose MPP field is a level that exists.
pub record IsLegal (s : Status) : Type 0 where
  pub word : s.mstatus < 2 ^ 32
  pub level : load_u2 s.mstatus 11 ≢ 2
  pub high : s.mstatush < 2 ^ 32

pub set_mie-IsLegal : (v : Bool) (s : Status) → IsLegal s → IsLegal (set_mie v s)
unfolding set_mie
set_mie-IsLegal v s h = record {
  word = ground (arith, h.word);
  level = ground (arith, h.word, h.level);
  high = ground (arith, h.high);
}

pub set_sie-IsLegal : (v : Bool) (s : Status) → IsLegal s → IsLegal (set_sie v s)
unfolding set_sie
set_sie-IsLegal v s h = record {
  word = ground (arith, h.word);
  level = ground (arith, h.word, h.level);
  high = ground (arith, h.high);
}

pub set_mpie-IsLegal : (v : Bool) (s : Status) → IsLegal s → IsLegal (set_mpie v s)
unfolding set_mpie
set_mpie-IsLegal v s h = record {
  word = ground (arith, h.word);
  level = ground (arith, h.word, h.level);
  high = ground (arith, h.high);
}

pub set_spie-IsLegal : (v : Bool) (s : Status) → IsLegal s → IsLegal (set_spie v s)
unfolding set_spie
set_spie-IsLegal v s h = record {
  word = ground (arith, h.word);
  level = ground (arith, h.word, h.level);
  high = ground (arith, h.high);
}

pub set_mprv-IsLegal : (v : Bool) (s : Status) → IsLegal s → IsLegal (set_mprv v s)
unfolding set_mprv
set_mprv-IsLegal v s h = record {
  word = ground (arith, h.word);
  level = ground (arith, h.word, h.level);
  high = ground (arith, h.high);
}

set_mxr-IsLegal : (v : Bool) (s : Status) → IsLegal s → IsLegal (set_mxr v s)
unfolding set_mxr
set_mxr-IsLegal v s h = record {
  word = ground (arith, h.word);
  level = ground (arith, h.word, h.level);
  high = ground (arith, h.high);
}

set_sum-IsLegal : (v : Bool) (s : Status) → IsLegal s → IsLegal (set_sum v s)
unfolding set_sum
set_sum-IsLegal v s h = record {
  word = ground (arith, h.word);
  level = ground (arith, h.word, h.level);
  high = ground (arith, h.high);
}

set_ube-IsLegal : (v : Bool) (s : Status) → IsLegal s → IsLegal (set_ube v s)
unfolding set_ube
set_ube-IsLegal v s h = record {
  word = ground (arith, h.word);
  level = ground (arith, h.word, h.level);
  high = ground (arith, h.high);
}

set_tvm-IsLegal : (v : Bool) (s : Status) → IsLegal s → IsLegal (set_tvm v s)
unfolding set_tvm
set_tvm-IsLegal v s h = record {
  word = ground (arith, h.word);
  level = ground (arith, h.word, h.level);
  high = ground (arith, h.high);
}

set_tw-IsLegal : (v : Bool) (s : Status) → IsLegal s → IsLegal (set_tw v s)
unfolding set_tw
set_tw-IsLegal v s h = record {
  word = ground (arith, h.word);
  level = ground (arith, h.word, h.level);
  high = ground (arith, h.high);
}

set_tsr-IsLegal : (v : Bool) (s : Status) → IsLegal s → IsLegal (set_tsr v s)
unfolding set_tsr
set_tsr-IsLegal v s h = record {
  word = ground (arith, h.word);
  level = ground (arith, h.word, h.level);
  high = ground (arith, h.high);
}

pub set_spp-IsLegal : (v : RawPrivilegeLevel) (s : Status) → IsLegal s → IsLegal (set_spp v s)
unfolding set_spp
set_spp-IsLegal v s h = record {
  word = ground (arith, h.word);
  level = ground (arith, h.word, h.level);
  high = ground (arith, h.high);
}

pub set_mpp-IsLegal : (v : RawPrivilegeLevel) (s : Status) → IsLegal s → IsLegal (set_mpp v s)
unfolding set_mpp
set_mpp-IsLegal v s h = record {
  word = ground (arith, h.word);
  level = ground (arith, h.word, h.level);
  high = ground (arith, h.high);
}

update_sd-IsLegal : (s : Status) → IsLegal s → IsLegal (update_sd s)
unfolding update_sd
update_sd-IsLegal s h = record {
  word = ground (arith, h.word);
  level = ground (arith, h.word, h.level);
  high = ground (arith, h.high);
}

store_u2-IsLegal :
    (v : ℕ) (s : Status)
    → v < 4
    → IsLegal s
    → IsLegal (record s { mstatus = store_u2 s.mstatus 13 v })
      × IsLegal (record s { mstatus = store_u2 s.mstatus 9 v })
store_u2-IsLegal v s hv h = (
  record { word = omega (arith, h.word); level = omega (arith, h.word, h.level); high = h.high },
  record { word = omega (arith, h.word); level = omega (arith, h.word, h.level); high = h.high },
)

set_fs-IsLegal : (v : ℕ) (s : Status) → v < 4 → IsLegal s → IsLegal (set_fs v s)
unfolding set_fs
set_fs-IsLegal v s hv h = update_sd-IsLegal _ (store_u2-IsLegal v s hv h).0

set_vs-IsLegal : (v : ℕ) (s : Status) → v < 4 → IsLegal s → IsLegal (set_vs v s)
unfolding set_vs
set_vs-IsLegal v s hv h = update_sd-IsLegal _ (store_u2-IsLegal v s hv h).1

when-IsLegal :
    (b : Bool) (f : Status → Status)
    → ((s : Status) → IsLegal s → IsLegal (f s))
    → (s : Status) → IsLegal s
    → IsLegal (when b f s)
when-IsLegal true f k s h = k s h
when-IsLegal false f k s h = h

set_raw-IsLegal :
    (f : RawPrivilegeLevel → Status → Status) (o : Option RawPrivilegeLevel)
    → ((v : RawPrivilegeLevel) (s : Status) → IsLegal s → IsLegal (f v s))
    → (s : Status) → IsLegal s
    → IsLegal (set_raw f o s)
set_raw-IsLegal f none k s h = h
set_raw-IsLegal f (some v) k s h = k v s h

lt_four : (a : ℕ) → a % 4 < 4
lt_four a = omega arith

update_fields-IsLegal :
    (mask_bits updated : ℕ) (s : Status) → IsLegal s → IsLegal (update_fields mask_bits updated s)
update_fields-IsLegal m u s h =
    search
      (
        when-IsLegal, set_raw-IsLegal, set_mie-IsLegal, set_sie-IsLegal, set_mpie-IsLegal,
        set_spie-IsLegal, set_mprv-IsLegal, set_mxr-IsLegal, set_sum-IsLegal, set_ube-IsLegal,
        set_tvm-IsLegal, set_tw-IsLegal, set_tsr-IsLegal, set_spp-IsLegal, set_mpp-IsLegal,
        set_fs-IsLegal, set_vs-IsLegal, lt_four,
      )
      depth 40

pub set_mbe-IsLegal : (v : Bool) (s : Status) → IsLegal s → IsLegal (set_mbe v s)
unfolding set_mbe
set_mbe-IsLegal v s h = record { word = h.word; level = h.level; high = ground (arith, h.high) }

set_sbe-IsLegal : (v : Bool) (s : Status) → IsLegal s → IsLegal (set_sbe v s)
unfolding set_sbe
set_sbe-IsLegal v s h = record { word = h.word; level = h.level; high = ground (arith, h.high) }

-- Any write of mstatus, of sstatus or of mstatush, of any value under any mask, keeps mstatus and
-- mstatush 32-bit words and the MPP field of mstatus a level that exists.
pub write_mstatus-IsLegal :
    (value mask : ℕ) (s : Status)
    → IsLegal s
    → IsLegal (write_mstatus value mask s)
      × IsLegal (write_sstatus value mask s)
      × IsLegal (write_mstatush value mask s)
unfolding write_mstatus write_sstatus write_mstatush
write_mstatus-IsLegal value mask s h = (
  update_fields-IsLegal value _ s h,
  update_fields-IsLegal value _ s h,
  when-IsLegal (bit mask 4) _ (set_sbe-IsLegal (bit value 4)) _
      (when-IsLegal (bit mask 5) _ (set_mbe-IsLegal (bit value 5)) s h),
)

-- Under a legal status the MPP field reads as a level, without a panic.
pub mpp-total : (s : Status) → IsLegal s → mpp s ≢ none
unfolding mpp
mpp-total s h = ground (arith, h.level, lt_four (s.mstatus / 2 ^ 11))

-- A write of the value zero leaves mstatus and sstatus as they are, whatever the mask.
pub write_mstatus-zero :
    (mask : ℕ) (s : Status) → (write_mstatus 0 mask s ≡ s) × (write_sstatus 0 mask s ≡ s)
unfolding write_mstatus write_sstatus
write_mstatus-zero mask s = (refl, refl)
