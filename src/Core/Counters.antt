-- ===== src/Core/Counters.antt =====
-- The counters and their control registers, red-planet-core/src/core/counters.rs and
-- core/counter_control.rs. `none` is the panic of a counter number that is out of range. Rust's
-- closure `check` of `check_access` is the index of the bit that it reads.
pub mod Laws
use redplanet.Base.{
  ℕ, ◌+◌, ◌*◌, ◌/◌, ◌%◌, ◌^◌, ◌==◌, leb, Bool, true, false, not, ◌&&◌, Option, none, some,
  if◌then◌else◌, bit, bit_and, bit_or, masked, not_u32, wrapping_add,
}
use redplanet.Privilege.{PrivilegeLevel, lower_than}
use redplanet.Instruction.Types.{CsrSpecifier}
use redplanet.Core.Machine.{CsrAccessError}

pub record Counters : Type 0 where
  pub mcycle : ℕ
  pub mcycleh : ℕ
  pub minstret : ℕ
  pub minstreth : ℕ
  pub skip_next_mcycle_increment : Bool
  pub skip_next_minstret_increment : Bool

unfoldable pub new : Counters
new = record {
  mcycle = 0;
  mcycleh = 0;
  minstret = 0;
  minstreth = 0;
  skip_next_mcycle_increment = false;
  skip_next_minstret_increment = false;
}

-- `Counteren` and `Mcountinhibit` are the numbers in them.
pub record CounterControl : Type 0 where
  pub mcounteren : ℕ
  pub scounteren : ℕ
  pub mcountinhibit : ℕ

unfoldable pub new_control : CounterControl
new_control = record { mcounteren = 0xFFFF_FFFF; scounteren = 0xFFFF_FFFF; mcountinhibit = 0 }

abbrev pub carry : (low high : ℕ) → ℕ
carry low high = if low == 0 then wrapping_add high 1 else high

unfoldable pub increment_cycle_counter : CounterControl → Counters → Counters
increment_cycle_counter control s =
    if s.skip_next_mcycle_increment
    then record s { skip_next_mcycle_increment = false }
    else if bit control.mcountinhibit 0
    then s
    else record s {
      mcycle = wrapping_add s.mcycle 1;
      mcycleh = carry (wrapping_add s.mcycle 1) s.mcycleh;
    }

unfoldable pub increment_instret_counter : CounterControl → Counters → Counters
increment_instret_counter control s =
    if s.skip_next_minstret_increment
    then record s { skip_next_minstret_increment = false }
    else if bit control.mcountinhibit 2
    then s
    else record s {
      minstret = wrapping_add s.minstret 1;
      minstreth = carry (wrapping_add s.minstret 1) s.minstreth;
    }

-- The error of an access that is not allowed.
unfoldable pub check_access :
    PrivilegeLevel → CounterControl → (bit_index : ℕ) → CsrSpecifier → Option CsrAccessError
check_access mode control bit_index specifier =
    if lower_than mode PrivilegeLevel.supervisor && not (bit control.scounteren bit_index)
    then some (CsrAccessError.csr_unavailable specifier)
    else if lower_than mode PrivilegeLevel.machine && not (bit control.mcounteren bit_index)
    then some (CsrAccessError.csr_unavailable specifier)
    else none

-- `(3..=31).contains(&n)`
abbrev pub is_hpm_number : ℕ → Bool
is_hpm_number n = leb 3 n && leb n 31

unfoldable pub write_mcycle : (value mask : ℕ) → Counters → Counters
write_mcycle value mask s = record s {
  mcycle = masked s.mcycle value mask;
  skip_next_mcycle_increment = true;
}

unfoldable pub write_mcycleh : (value mask : ℕ) → Counters → Counters
write_mcycleh value mask s = record s {
  mcycleh = masked s.mcycleh value mask;
  skip_next_mcycle_increment = true;
}

unfoldable pub write_minstret : (value mask : ℕ) → Counters → Counters
write_minstret value mask s = record s {
  minstret = masked s.minstret value mask;
  skip_next_minstret_increment = true;
}

unfoldable pub write_minstreth : (value mask : ℕ) → Counters → Counters
write_minstreth value mask s = record s {
  minstreth = masked s.minstreth value mask;
  skip_next_minstret_increment = true;
}

-- The performance counters and their event selectors, of either half, are zero.
unfoldable pub read_mhpm : (n : ℕ) → Option ℕ
read_mhpm n = if not (is_hpm_number n) then none else some 0

-- Their writes are ignored.
unfoldable pub write_mhpm : (n : ℕ) → Counters → Option Counters
write_mhpm n s = if not (is_hpm_number n) then none else some s

unfoldable pub write_mcounteren : (value mask : ℕ) → CounterControl → CounterControl
write_mcounteren value mask s = record s { mcounteren = masked s.mcounteren value mask }

unfoldable pub write_scounteren : (value mask : ℕ) → CounterControl → CounterControl
write_scounteren value mask s = record s { scounteren = masked s.scounteren value mask }

unfoldable pub write_mcountinhibit : (value mask : ℕ) → CounterControl → CounterControl
write_mcountinhibit value mask s = record s {
  mcountinhibit =
      bit_or (bit_and s.mcountinhibit (not_u32 mask)) (bit_and (bit_and value mask) (not_u32 0b10));
}
