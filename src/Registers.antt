-- ===== src/Registers.antt =====
-- The general purpose registers, red-planet-core/src/registers.rs. A specifier is the number of a
-- register; its type in the source keeps it below `len`, which `IsValid` and the theorems state.
pub mod Laws
use redplanet.Base.{ℕ, ◌==◌, if◌then◌else◌, ltb, List, Option, some, none, get_or, set, replicate}

abbrev pub Specifier : Type 0
Specifier = ℕ

-- `LEN`
abbrev pub len : ℕ
len = 32

pub record Registers : Type 0 where
  pub x_registers : List ℕ
  pub pc : ℕ

unfoldable pub new : ℕ → Registers
new initial_pc = record { x_registers = replicate len 0; pc = initial_pc }

-- An index out of range panics in the source; a specifier never is.
unfoldable pub x : Registers → Specifier → ℕ
x r specifier = get_or r.x_registers specifier 0

-- Returns the old value, and ignores writes to `x0`.
unfoldable pub replace_x : Registers → Specifier → ℕ → ℕ × Registers
unfolding x
replace_x r specifier value =
    if specifier == 0
    then (0, r)
    else (x r specifier, record r { x_registers = set r.x_registers specifier value })

unfoldable pub set_x : Registers → Specifier → ℕ → Registers
unfolding replace_x
set_x r specifier value = (replace_x r specifier value).1

-- A write through `pc_mut`.
unfoldable pub set_pc : Registers → ℕ → Registers
set_pc r value = record r { pc = value }

-- `None` where the index does not fit.
unfoldable pub new_specifier : ℕ → Option Specifier
new_specifier index = if ltb index 32 then some index else none

-- `None` for the panic.
unfoldable pub from_u5 : ℕ → Option Specifier
from_u5 value_u5 = if ltb 31 value_u5 then none else some value_u5
