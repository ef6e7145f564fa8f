-- ===== src/Core/Interrupts.antt =====
-- The interrupt registers, red-planet-core/src/core/interrupts.rs. The 16-bit registers are numbers.
pub mod Laws
pub mod Priority
use redplanet.Base.{
  ℕ, ◌+◌, ◌*◌, ◌/◌, ◌%◌, ◌^◌, ◌-◌, Bool, true, false, not, ◌&&◌, ◌||◌, Option, none, some,
  if◌then◌else◌, bit, set_bit, bit_and, bit_or, u16, List, [], ◌∷◌,
}
use redplanet.Interrupt.{Signal}
use redplanet.Core.Cause.{Interrupt, interrupt_number}

pub record Interrupts : Type 0 where
  pub delegate : ℕ
  pub seip_external : Bool
  pub seip_internal : Bool
  pub mip : ℕ
  pub mie : ℕ

unfoldable pub new : Interrupts
new = record { delegate = 0; seip_external = false; seip_internal = false; mip = 0; mie = 0 }

abbrev pub valid_interrupts_mask : ℕ
valid_interrupts_mask = 0b1010_1010_1010

abbrev pub delegatable_interrupts_mask : ℕ
delegatable_interrupts_mask = 0b10_0010_0010

-- `old & !mask | value & mask` on a `u16`.
abbrev pub masked_u16 : (old value mask : ℕ) → ℕ
masked_u16 old value mask = bit_or (bit_and old (2 ^ 16 - 1 - mask)) (bit_and value mask)

unfoldable pub should_delegate : Interrupt → Interrupts → Bool
should_delegate i s = bit s.delegate (interrupt_number i)

unfoldable pub set_m_external : Bool → Interrupts → Interrupts
set_m_external value s = record s { mip = set_bit s.mip 11 value }

unfoldable pub set_s_external : Bool → Interrupts → Interrupts
set_s_external value s = record s {
  seip_external = value;
  mip = set_bit s.mip 9 (value || s.seip_internal);
}

unfoldable pub set_m_timer : Bool → Interrupts → Interrupts
set_m_timer value s = record s { mip = set_bit s.mip 7 value }

unfoldable pub set_m_soft : Interrupts → Interrupts
set_m_soft s = record s { mip = set_bit s.mip 3 true }

unfoldable pub set_s_soft : Interrupts → Interrupts
set_s_soft s = record s { mip = set_bit s.mip 1 true }

abbrev pub m_order : List Interrupt
m_order =
    Interrupt.machine_external_interrupt ∷ Interrupt.machine_software_interrupt
    ∷ Interrupt.machine_timer_interrupt ∷ Interrupt.supervisor_external_interrupt
    ∷ Interrupt.supervisor_software_interrupt ∷ Interrupt.supervisor_timer_interrupt ∷ []

abbrev pub s_order : List Interrupt
s_order =
    Interrupt.supervisor_external_interrupt ∷ Interrupt.supervisor_software_interrupt
    ∷ Interrupt.supervisor_timer_interrupt ∷ []

-- `into_iter().find(|&i| ready.bit(i as usize))`
unfoldable pub find_ready : List Interrupt → (ready : ℕ) → Option Interrupt
find_ready [] ready = none
find_ready (i ∷ rest) ready =
    if bit ready (interrupt_number i) then some i else find_ready rest ready

abbrev pub m_ready : Interrupts → ℕ
m_ready s = bit_and (bit_and s.mip s.mie) (2 ^ 16 - 1 - s.delegate)

abbrev pub s_ready : Interrupts → ℕ
s_ready s = bit_and (bit_and s.mip s.mie) s.delegate

unfoldable pub highest_priority_m_ready : Interrupts → Option Interrupt
unfolding find_ready
highest_priority_m_ready s = find_ready m_order (m_ready s)

unfoldable pub highest_priority_s_ready : Interrupts → Option Interrupt
unfolding find_ready
highest_priority_s_ready s = find_ready s_order (s_ready s)

unfoldable pub write_mideleg : (value mask : ℕ) → Interrupts → Interrupts
write_mideleg value mask s = record s {
  delegate = masked_u16 s.delegate (u16 value) (bit_and (u16 mask) delegatable_interrupts_mask);
}

-- `if mask[i] { mip.set_bit(i, value[i]) }`
abbrev pub write_mip_bit : (i value mask : ℕ) → Interrupts → Interrupts
write_mip_bit i value mask s =
    if bit mask i then record s { mip = set_bit s.mip i (bit value i) } else s

abbrev pub write_seip : (value mask : ℕ) → Interrupts → Interrupts
write_seip value mask s =
    if bit mask 9
    then record s {
      seip_internal = bit value 9;
      mip = set_bit s.mip 9 (s.seip_external || bit value 9);
    }
    else s

unfoldable pub write_mip : (value mask : ℕ) → Interrupts → Interrupts
write_mip value mask s =
    write_mip_bit 1 value mask (write_mip_bit 5 value mask (write_seip value mask s))

unfoldable pub write_mie : (value mask : ℕ) → Interrupts → Interrupts
write_mie value mask s = record s {
  mie = masked_u16 s.mie (u16 value) (bit_and (u16 mask) valid_interrupts_mask);
}

unfoldable pub read_sip : Interrupts → ℕ
read_sip s = bit_and s.mip s.delegate

unfoldable pub write_sip : (value mask : ℕ) → Interrupts → Interrupts
write_sip value mask s = write_mip_bit 1 value mask s

unfoldable pub read_sie : Interrupts → ℕ
read_sie s = bit_and s.mie s.delegate

unfoldable pub write_sie : (value mask : ℕ) → Interrupts → Interrupts
write_sie value mask s = record s {
  mie = masked_u16 s.mie (u16 value) (bit_and (u16 mask) s.delegate);
}

unfoldable pub raise : Interrupt → Interrupts → Interrupts
unfolding set_s_soft set_m_soft set_m_timer set_s_external set_m_external
raise Interrupt.supervisor_software_interrupt s = set_s_soft s
raise Interrupt.machine_software_interrupt s = set_m_soft s
raise Interrupt.supervisor_timer_interrupt s = s
raise Interrupt.machine_timer_interrupt s = set_m_timer true s
raise Interrupt.supervisor_external_interrupt s = set_s_external true s
raise Interrupt.machine_external_interrupt s = set_m_external true s

unfoldable pub lower : Interrupt → Interrupts → Interrupts
unfolding set_m_timer set_s_external set_m_external
lower Interrupt.supervisor_software_interrupt s = s
lower Interrupt.machine_software_interrupt s = s
lower Interrupt.supervisor_timer_interrupt s = s
lower Interrupt.machine_timer_interrupt s = set_m_timer false s
lower Interrupt.supervisor_external_interrupt s = set_s_external false s
lower Interrupt.machine_external_interrupt s = set_m_external false s

-- The call that a device makes on its callback, `CoreIrqCallback`.
unfoldable pub signalled : Interrupt → Signal → Interrupts → Interrupts
unfolding raise lower
signalled i Signal.raise s = raise i s
signalled i Signal.lower s = lower i s
signalled i Signal.quiet s = s
