-- ===== src/Core/Envcfg.antt =====
-- The environment configuration registers, red-planet-core/src/core/envcfg.rs.
use redplanet.Base.{ℕ, Bool, bit, set_bit, masked}

pub record Envcfg : Type 0 where
  pub menvcfg : ℕ
  pub menvcfgh : ℕ
  pub senvcfg : ℕ

unfoldable pub new : Envcfg
new = record { menvcfg = 0; menvcfgh = 0; senvcfg = 0 }

unfoldable pub m_fiom : Envcfg → Bool
m_fiom s = bit s.menvcfg 0

unfoldable pub set_m_fiom : Bool → Envcfg → Envcfg
set_m_fiom value s = record s { menvcfg = set_bit s.menvcfg 0 value }

unfoldable pub s_fiom : Envcfg → Bool
s_fiom s = bit s.senvcfg 0

unfoldable pub set_s_fiom : Bool → Envcfg → Envcfg
set_s_fiom value s = record s { senvcfg = set_bit s.senvcfg 0 value }

unfoldable pub pbmte : Envcfg → Bool
pbmte s = bit s.menvcfgh 30

unfoldable pub set_pbmte : Bool → Envcfg → Envcfg
set_pbmte value s = record s { menvcfgh = set_bit s.menvcfgh 30 value }

unfoldable pub write_menvcfg : (value mask : ℕ) → Envcfg → Envcfg
write_menvcfg value mask s = record s { menvcfg = masked s.menvcfg value mask }

unfoldable pub write_menvcfgh : (value mask : ℕ) → Envcfg → Envcfg
write_menvcfgh value mask s = record s { menvcfgh = masked s.menvcfgh value mask }

unfoldable pub write_senvcfg : (value mask : ℕ) → Envcfg → Envcfg
write_senvcfg value mask s = record s { senvcfg = masked s.senvcfg value mask }
