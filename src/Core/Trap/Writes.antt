-- ===== src/Core/Trap/Writes.antt =====
-- The writes of the trap registers keep their invariant, `IsSoundTrap`.
use redplanet.Base.{ℕ, ◌^◌, ◌<◌, arith, not_u32}
use redplanet.Base.Bounds.{bit_and-lt, bit_or-lt}
use redplanet.Base.Masks.{masked-lt}
use redplanet.Core.Trap
use redplanet.Core.Trap.Laws.{IsSoundTrap}

module _ (value mask : ℕ) (t : Trap.Trap) (s : IsSoundTrap t) where
  pub write_mscratch-IsSound : value < 2 ^ 32 → IsSoundTrap (Trap.write_mscratch value mask t)
  unfolding Trap.write_mscratch
  write_mscratch-IsSound k = record {
    m_base = s.m_base;
    s_base = s.s_base;
    mscratch = masked-lt t.mscratch value mask s.mscratch k;
    sscratch = s.sscratch;
    delegate = s.delegate;
    mtval = s.mtval;
    mtval2 = s.mtval2;
    mtinst = s.mtinst;
    stval = s.stval;
    ppn = s.ppn;
  }

  pub write_sscratch-IsSound : value < 2 ^ 32 → IsSoundTrap (Trap.write_sscratch value mask t)
  unfolding Trap.write_sscratch
  write_sscratch-IsSound k = record {
    m_base = s.m_base;
    s_base = s.s_base;
    mscratch = s.mscratch;
    sscratch = masked-lt t.sscratch value mask s.sscratch k;
    delegate = s.delegate;
    mtval = s.mtval;
    mtval2 = s.mtval2;
    mtinst = s.mtinst;
    stval = s.stval;
    ppn = s.ppn;
  }

  pub write_mtval-IsSound : value < 2 ^ 32 → IsSoundTrap (Trap.write_mtval value mask t)
  unfolding Trap.write_mtval
  write_mtval-IsSound k = record {
    m_base = s.m_base;
    s_base = s.s_base;
    mscratch = s.mscratch;
    sscratch = s.sscratch;
    delegate = s.delegate;
    mtval = masked-lt t.mtval value mask s.mtval k;
    mtval2 = s.mtval2;
    mtinst = s.mtinst;
    stval = s.stval;
    ppn = s.ppn;
  }

  pub write_mtval2-IsSound : value < 2 ^ 32 → IsSoundTrap (Trap.write_mtval2 value mask t)
  unfolding Trap.write_mtval2
  write_mtval2-IsSound k = record {
    m_base = s.m_base;
    s_base = s.s_base;
    mscratch = s.mscratch;
    sscratch = s.sscratch;
    delegate = s.delegate;
    mtval = s.mtval;
    mtval2 = masked-lt t.mtval2 value mask s.mtval2 k;
    mtinst = s.mtinst;
    stval = s.stval;
    ppn = s.ppn;
  }

  pub write_mtinst-IsSound : value < 2 ^ 32 → IsSoundTrap (Trap.write_mtinst value mask t)
  unfolding Trap.write_mtinst
  write_mtinst-IsSound k = record {
    m_base = s.m_base;
    s_base = s.s_base;
    mscratch = s.mscratch;
    sscratch = s.sscratch;
    delegate = s.delegate;
    mtval = s.mtval;
    mtval2 = s.mtval2;
    mtinst = masked-lt t.mtinst value mask s.mtinst k;
    stval = s.stval;
    ppn = s.ppn;
  }

  pub write_stval-IsSound : value < 2 ^ 32 → IsSoundTrap (Trap.write_stval value mask t)
  unfolding Trap.write_stval
  write_stval-IsSound k = record {
    m_base = s.m_base;
    s_base = s.s_base;
    mscratch = s.mscratch;
    sscratch = s.sscratch;
    delegate = s.delegate;
    mtval = s.mtval;
    mtval2 = s.mtval2;
    mtinst = s.mtinst;
    stval = masked-lt t.stval value mask s.stval k;
    ppn = s.ppn;
  }

  pub write_mcause-IsSound : IsSoundTrap (Trap.write_mcause value mask t)
  unfolding Trap.write_mcause
  write_mcause-IsSound = record {
    m_base = s.m_base;
    s_base = s.s_base;
    mscratch = s.mscratch;
    sscratch = s.sscratch;
    delegate = s.delegate;
    mtval = s.mtval;
    mtval2 = s.mtval2;
    mtinst = s.mtinst;
    stval = s.stval;
    ppn = s.ppn;
  }

  pub write_scause-IsSound : IsSoundTrap (Trap.write_scause value mask t)
  unfolding Trap.write_scause
  write_scause-IsSound = record {
    m_base = s.m_base;
    s_base = s.s_base;
    mscratch = s.mscratch;
    sscratch = s.sscratch;
    delegate = s.delegate;
    mtval = s.mtval;
    mtval2 = s.mtval2;
    mtinst = s.mtinst;
    stval = s.stval;
    ppn = s.ppn;
  }

  pub write_medeleg-IsSound : value < 2 ^ 32 → IsSoundTrap (Trap.write_medeleg value mask t)
  unfolding Trap.write_medeleg
  write_medeleg-IsSound k = record {
    m_base = s.m_base;
    s_base = s.s_base;
    mscratch = s.mscratch;
    sscratch = s.sscratch;
    delegate =
        bit_or-lt 32 _ _ (bit_and-lt 32 t.delegate_exception (not_u32 mask) s.delegate)
          (bit_and-lt 32 _ Trap.delegatable_exceptions_mask (bit_and-lt 32 value mask k));
    mtval = s.mtval;
    mtval2 = s.mtval2;
    mtinst = s.mtinst;
    stval = s.stval;
    ppn = s.ppn;
  }

  pub store_satp-IsSound : IsSoundTrap (Trap.store_satp value mask t)
  unfolding Trap.store_satp
  store_satp-IsSound = record {
    m_base = s.m_base;
    s_base = s.s_base;
    mscratch = s.mscratch;
    sscratch = s.sscratch;
    delegate = s.delegate;
    mtval = s.mtval;
    mtval2 = s.mtval2;
    mtinst = s.mtinst;
    stval = s.stval;
    ppn = omega arith;
  }
