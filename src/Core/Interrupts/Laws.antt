-- ===== src/Core/Interrupts/Laws.antt =====
-- The interrupt registers: their invariant, and which interrupt is the one to take.
use redplanet.Base.{
  ℕ, ◌-◌, ◌^◌, ◌<◌, ◌≡◌, refl, arith, Bool, true, false, ◌||◌, if◌then◌else◌, bit, set_bit, u16,
  List, [], ◌∷◌, ◌∙◌,
}
use redplanet.Base.Bounds.{bit_and-lt, bit_or-lt}
use redplanet.Interrupt.{Signal}
use redplanet.Core.Cause.{Interrupt}
use redplanet.Core.Interrupts

-- The registers are 16 bits wide, and the external S-level bit of mip is the disjunction of its two
-- sources.
pub record IsSoundInterrupts (s : Interrupts.Interrupts) : Type 0 where
  pub delegate : s.delegate < 2 ^ 16
  pub mip : s.mip < 2 ^ 16
  pub mie : s.mie < 2 ^ 16
  pub seip : bit s.mip 9 ≡ (s.seip_external || s.seip_internal)

masked_u16-lt :
    (old value mask : ℕ)
    → old < 2 ^ 16
    → value < 2 ^ 16
    → Interrupts.masked_u16 old value mask < 2 ^ 16
masked_u16-lt old value mask h k =
    bit_or-lt 16 _ _ (bit_and-lt 16 old (2 ^ 16 - 1 - mask) h) (bit_and-lt 16 value mask k)

module _ (s : Interrupts.Interrupts) (h : IsSoundInterrupts s) where
  -- A new mip with the same external S-level bit.
  with_mip :
      (mip : ℕ)
      → mip < 2 ^ 16
      → bit mip 9 ≡ bit s.mip 9
      → IsSoundInterrupts (record s { mip = mip })
  with_mip mip lt e = record { delegate = h.delegate; mip = lt; mie = h.mie; seip = e ∙ h.seip }

  low_bit :
      (v : Bool)
      → IsSoundInterrupts (record s { mip = set_bit s.mip 1 v })
        × IsSoundInterrupts (record s { mip = set_bit s.mip 3 v })
        × IsSoundInterrupts (record s { mip = set_bit s.mip 5 v })
        × IsSoundInterrupts (record s { mip = set_bit s.mip 7 v })
        × IsSoundInterrupts (record s { mip = set_bit s.mip 11 v })
  low_bit v = (
    with_mip _ (ground (arith, h.mip)) (ground arith),
    with_mip _ (ground (arith, h.mip)) (ground arith),
    with_mip _ (ground (arith, h.mip)) (ground arith),
    with_mip _ (ground (arith, h.mip)) (ground arith),
    with_mip _ (ground (arith, h.mip)) (ground arith),
  )

  -- The external bit with a new value of one of its sources.
  external_bit :
      (external internal : Bool)
      → IsSoundInterrupts (record s {
        seip_external = external;
        seip_internal = internal;
        mip = set_bit s.mip 9 (external || internal);
      })
  external_bit external internal = record {
    delegate = h.delegate;
    mip = ground (arith, h.mip);
    mie = h.mie;
    seip = ground arith;
  }

  pub raise-IsSound : (i : Interrupt) → IsSoundInterrupts (Interrupts.raise i s)
  unfolding Interrupts.raise
  raise-IsSound Interrupt.supervisor_software_interrupt = (low_bit true).0
  raise-IsSound Interrupt.machine_software_interrupt = (low_bit true).1
  raise-IsSound Interrupt.supervisor_timer_interrupt = h
  raise-IsSound Interrupt.machine_timer_interrupt = (low_bit true).3
  raise-IsSound Interrupt.supervisor_external_interrupt = external_bit true s.seip_internal
  raise-IsSound Interrupt.machine_external_interrupt = (low_bit true).4

  pub lower-IsSound : (i : Interrupt) → IsSoundInterrupts (Interrupts.lower i s)
  unfolding Interrupts.lower
  lower-IsSound Interrupt.supervisor_software_interrupt = h
  lower-IsSound Interrupt.machine_software_interrupt = h
  lower-IsSound Interrupt.supervisor_timer_interrupt = h
  lower-IsSound Interrupt.machine_timer_interrupt = (low_bit false).3
  lower-IsSound Interrupt.supervisor_external_interrupt = external_bit false s.seip_internal
  lower-IsSound Interrupt.machine_external_interrupt = (low_bit false).4

  software_bit :
      (m v : Bool) → IsSoundInterrupts (if m then record s { mip = set_bit s.mip 1 v } else s)
  software_bit true v = (low_bit v).0
  software_bit false v = h

  timer_bit :
      (m v : Bool) → IsSoundInterrupts (if m then record s { mip = set_bit s.mip 5 v } else s)
  timer_bit true v = (low_bit v).2
  timer_bit false v = h

  write_seip-IsSound : (value mask : ℕ) → IsSoundInterrupts (Interrupts.write_seip value mask s)
  write_seip-IsSound value mask = go (bit mask 9) (bit value 9)
    where
      go :
          (m v : Bool)
          → IsSoundInterrupts (
              if m
              then record s { seip_internal = v; mip = set_bit s.mip 9 (s.seip_external || v) }
              else s)
      go true v = external_bit s.seip_external v
      go false v = h

  pub write_sip-IsSound : (value mask : ℕ) → IsSoundInterrupts (Interrupts.write_sip value mask s)
  unfolding Interrupts.write_sip
  write_sip-IsSound value mask = software_bit (bit mask 1) (bit value 1)

  pub write_mideleg-IsSound :
      (value mask : ℕ) → IsSoundInterrupts (Interrupts.write_mideleg value mask s)
  unfolding Interrupts.write_mideleg
  write_mideleg-IsSound value mask = record {
    delegate = masked_u16-lt s.delegate (u16 value) _ h.delegate (omega arith);
    mip = h.mip;
    mie = h.mie;
    seip = h.seip;
  }

  pub write_mie-IsSound : (value mask : ℕ) → IsSoundInterrupts (Interrupts.write_mie value mask s)
  unfolding Interrupts.write_mie
  write_mie-IsSound value mask = record {
    delegate = h.delegate;
    mip = h.mip;
    mie = masked_u16-lt s.mie (u16 value) _ h.mie (omega arith);
    seip = h.seip;
  }

  pub write_sie-IsSound : (value mask : ℕ) → IsSoundInterrupts (Interrupts.write_sie value mask s)
  unfolding Interrupts.write_sie
  write_sie-IsSound value mask = record {
    delegate = h.delegate;
    mip = h.mip;
    mie = masked_u16-lt s.mie (u16 value) _ h.mie (omega arith);
    seip = h.seip;
  }

pub write_mip-IsSound :
    (value mask : ℕ) (s : Interrupts.Interrupts)
    → IsSoundInterrupts s
    → IsSoundInterrupts (Interrupts.write_mip value mask s)
unfolding Interrupts.write_mip
write_mip-IsSound value mask s h =
    software_bit _ (timer_bit _ (write_seip-IsSound s h value mask) (bit mask 5) (bit value 5))
      (bit mask 1) (bit value 1)

-- What happens to the registers: a call of a device, or a write by the guest.
pub data Event : Type 0 where
  line : Interrupt → Signal → Event
  mideleg mip mie sip sie : (value mask : ℕ) → Event

abbrev pub after : Event → Interrupts.Interrupts → Interrupts.Interrupts
after (Event.line i signal) s = Interrupts.signalled i signal s
after (Event.mideleg value mask) s = Interrupts.write_mideleg value mask s
after (Event.mip value mask) s = Interrupts.write_mip value mask s
after (Event.mie value mask) s = Interrupts.write_mie value mask s
after (Event.sip value mask) s = Interrupts.write_sip value mask s
after (Event.sie value mask) s = Interrupts.write_sie value mask s

unfoldable pub run : List Event → Interrupts.Interrupts → Interrupts.Interrupts
run [] s = s
run (e ∷ rest) s = run rest (after e s)

pub signalled-IsSound :
    (i : Interrupt) (signal : Signal) (s : Interrupts.Interrupts)
    → IsSoundInterrupts s
    → IsSoundInterrupts (Interrupts.signalled i signal s)
unfolding Interrupts.signalled
signalled-IsSound i Signal.raise s h = raise-IsSound s h i
signalled-IsSound i Signal.lower s h = lower-IsSound s h i
signalled-IsSound i Signal.quiet s h = h

after-IsSound :
    (e : Event) (s : Interrupts.Interrupts) → IsSoundInterrupts s → IsSoundInterrupts (after e s)
after-IsSound (Event.line i signal) s h = signalled-IsSound i signal s h
after-IsSound (Event.mideleg value mask) s h = write_mideleg-IsSound s h value mask
after-IsSound (Event.mip value mask) s h = write_mip-IsSound value mask s h
after-IsSound (Event.mie value mask) s h = write_mie-IsSound s h value mask
after-IsSound (Event.sip value mask) s h = write_sip-IsSound s h value mask
after-IsSound (Event.sie value mask) s h = write_sie-IsSound s h value mask

run-IsSound :
    (events : List Event) (s : Interrupts.Interrupts)
    → IsSoundInterrupts s
    → IsSoundInterrupts (run events s)
unfolding run
run-IsSound [] s h = h
run-IsSound (e ∷ rest) s h = run-IsSound rest (after e s) (after-IsSound e s h)

-- Whatever the calls of the devices and the writes of the guest, from new registers on: the registers
-- keep to 16 bits, and SEIP in mip is the disjunction of the device's line and the guest's bit.
pub run-new-IsSound : (events : List Event) → IsSoundInterrupts (run events Interrupts.new)
unfolding Interrupts.new
run-new-IsSound events =
    run-IsSound events Interrupts.new
      (record { delegate = omega arith; mip = omega arith; mie = omega arith; seip = refl })
