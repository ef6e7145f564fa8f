-- ===== src/Registers/Laws.antt =====
-- What the registers promise: reads return the last write, `x0` is always zero.
use redplanet.Base.{
  ℕ, ◌<◌, ◌^◌, ◌≡◌, ◌≢◌, arith, ◌==◌, if◌then◌else◌, length, length-set, get_or-set_self,
  length-replicate, get_or-replicate, refl, get_or-set_ne,
}
use redplanet.Registers.{Registers, new, Specifier, len, x, set_x, set_pc}

-- 32 registers, `x0` zero, and every register a 32-bit word.
pub record IsValid (r : Registers) : Type 0 where
  pub full : length r.x_registers ≡ len
  pub zero_reg : x r 0 ≡ 0
  pub words : (s : Specifier) → x r s < 2 ^ 32

-- The registers a core starts with are valid.
pub new-IsValid : (initial_pc : ℕ) → IsValid (new initial_pc)
unfolding new x
new-IsValid initial_pc = record {
  full = length-replicate {A = ℕ} 32 0;
  zero_reg = refl;
  words = λ s. rw (get_or-replicate {A = ℕ} 32 s 0) (omega arith);
}

pub x-set_x_self :
    (r : Registers) (s : Specifier) (v : ℕ)
    → IsValid r
    → s < len
    → x (set_x r s v) s ≡ (if s == 0 then 0 else v)
unfolding x set_x
x-set_x_self r s v valid h =
    ground (arith, valid.full, valid.zero_reg, get_or-set_self r.x_registers s v 0)

pub x-set_x_ne : (r : Registers) (s t : Specifier) (v : ℕ) → s ≢ t → x (set_x r s v) t ≡ x r t
unfolding x set_x
x-set_x_ne r s t v ne = ground (arith, get_or-set_ne r.x_registers s t v 0)

-- In valid registers, after a write to a specifier `s`, register `t` reads the value written when it is `s` and
-- not `x0`, and its old value otherwise.
pub x-set_x :
    (r : Registers) (s t : Specifier) (v : ℕ)
    → IsValid r
    → s < len
    → x (set_x r s v) t ≡ (if s == t then (if s == 0 then 0 else v) else x r t)
x-set_x r s t v valid h = ground (arith, x-set_x_self r s v valid h, x-set_x_ne r s t v)

-- A write of a 32-bit value to any register keeps the registers valid: 32 of them, 32-bit words,
-- `x0` zero.
pub set_x-IsValid :
    (r : Registers) (s : Specifier) (v : ℕ)
    → IsValid r
    → s < len
    → v < 2 ^ 32
    → IsValid (set_x r s v)
set_x-IsValid r s v valid h hv = record {
  full = full';
  zero_reg = ground (arith, x-set_x r s 0 v valid h, valid.zero_reg);
  words = λ t. ground (arith, x-set_x r s t v valid h, valid.words t);
}
  where
    full' : length (set_x r s v).x_registers ≡ len
    full' = unfold set_x in ground (arith, valid.full, length-set r.x_registers s v)

pub set_pc-IsValid : (r : Registers) (v : ℕ) → IsValid r → IsValid (set_pc r v)
unfolding set_pc x
set_pc-IsValid r v valid = record {
  full = valid.full;
  zero_reg = valid.zero_reg;
  words = valid.words;
}
