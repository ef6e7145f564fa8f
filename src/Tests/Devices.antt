-- ===== src/Tests/Devices.antt =====
-- The timer and the interrupt controller on concrete inputs.
use redplanet.Base.{
  ℕ, ◌+◌, ◌≡◌, refl, arith, true, false, some, List, [], ◌∷◌, set, replicate, ◌↔◌, ◌⊎◌, ◌<◌, ◌≤◌,
}
use redplanet.Interrupt.{Signal}
use redplanet.Core.Clint.{mtime_addr_lo, mtimecmp_addr_lo, mtimecmp_addr_hi}
use redplanet.Core.Clint.Laws
use redplanet.Core.Clint
use redplanet.Resources.Plic
use redplanet.Resources.Plic.Selection
use redplanet.Resources.Plic.Reach

abbrev timer : Clint.State
timer = record { mtime = 9; mtimecmp = 10 }

tick_raises : (Clint.step timer).1 ≡ Signal.raise
unfolding Clint.step Clint.needs_interrupt
tick_raises = refl

write_u32-clears_example :
    ((Clint.write_u32 0xbff8 7 timer).0 ≡ record timer { mtime = 0 })
    × ((Clint.write_u32 0xbffc 7 timer).0 ≡ record timer { mtime = 0 })
    × ((Clint.write_u32 0x4000 7 timer).0 ≡ record timer { mtimecmp = 0 })
    × ((Clint.write_u32 0x4004 7 timer).0 ≡ record timer { mtimecmp = 0 })
write_u32-clears_example = Laws.write_u32-clears 7 timer (omega arith)

run-tracks_example :
    (Laws.run (Laws.tick ∷ Laws.restart ∷ []) timer (Clint.needs_interrupt timer)).1
    ≡ Clint.needs_interrupt
        (Laws.run (Laws.tick ∷ Laws.restart ∷ []) timer (Clint.needs_interrupt timer)).0
run-tracks_example = Laws.run-tracks (Laws.tick ∷ Laws.restart ∷ []) timer

step-raise_example : ((Clint.step timer).1 ≡ Signal.raise) ↔ (timer.mtime + 1 ≡ timer.mtimecmp)
step-raise_example = Laws.step-raise timer (omega arith)

fresh_timer_silent_example :
    (Laws.run (Laws.ticks 1000) Clint.new false ≡ (record { mtime = 1000; mtimecmp = 0 }, false))
    × (Clint.needs_interrupt (Laws.run (Laws.ticks 1000) Clint.new false).0 ≡ true)
fresh_timer_silent_example = Laws.fresh_timer_silent 1000 (omega arith)

abbrev exchanged : List ℕ
exchanged = 1 ∷ 0 ∷ 0 ∷ 0 ∷ 2 ∷ 0 ∷ 0 ∷ 0 ∷ []

read-write_u64_example :
    ((Clint.read (replicate 8 0) (Clint.write_u64 0x4004 0x1_0000_0002 timer).0 0x4000 ≡ exchanged)
      × (Clint.read (replicate 8 0) (Clint.write_u64 0xbffc 0x1_0000_0002 timer).0 0xbff8
          ≡ exchanged))
    × ((Clint.write_u64 0x4004 0x1_0000_0002 timer).0.mtime ≡ timer.mtime)
    × ((Clint.write_u64 0xbffc 0x1_0000_0002 timer).0.mtimecmp ≡ timer.mtimecmp)
    × ((Clint.write_u64 0x4000 0x1_0000_0002 timer).0 ≡ timer)
    × ((Clint.write_u64 0xbff8 0x1_0000_0002 timer).0 ≡ timer)
read-write_u64_example = Laws.read-write_u64 0x1_0000_0002 (replicate 8 0) timer (omega arith) refl

-- Interrupts 3 and 5 are enabled and pending, with priorities 2 and 4.
abbrev busy : Plic.State
busy = record {
  priorities = set (set (replicate 53 0) 3 2) 5 4;
  pending = 0x1400_0000 ∷ 0 ∷ [];
  enabled = 0x1400_0000 ∷ 0 ∷ [];
  priority_threshold = 1;
}

highest_of_busy : Plic.highest_priority_pending busy ≡ 5
unfolding Plic.highest_priority_pending
highest_of_busy = refl

highest_priority_pending-maximal_example :
    let h = Plic.highest_priority_pending busy in
    Selection.IsCandidate busy h
    × (1 < Selection.priority busy h)
    × ((2 < Selection.priority busy h) ⊎ ((2 ≡ Selection.priority busy h) × (h ≤ 3)))
highest_priority_pending-maximal_example =
    Selection.highest_priority_pending-maximal busy 3 (omega arith, refl) (omega arith)

highest_priority_pending_sound_example :
    Selection.IsCandidate busy (Plic.highest_priority_pending busy)
    × (1 < Selection.priority busy (Plic.highest_priority_pending busy))
highest_priority_pending_sound_example =
    Selection.highest_priority_pending_sound busy (λ e. absurd (omega (arith, highest_of_busy, e)))

-- Enable everything the first enable word lets through, raise interrupt 5, then claim.
abbrev session : List Reach.Op
session =
    Reach.store 0x2000 (255 ∷ 255 ∷ 255 ∷ 255 ∷ [])
    ∷ Reach.store 0x4 (7 ∷ 0 ∷ 0 ∷ 0 ∷ [])
    ∷ Reach.interrupt 5
    ∷ Reach.load (replicate 4 0) 0x20_0004
    ∷ []

abbrev after_session : Plic.State
after_session = record {
  priorities = set (replicate 53 0) 1 7;
  pending = 0x0400_0000 ∷ 0 ∷ [];
  enabled = 0x8000_0000 ∷ 0 ∷ [];
  priority_threshold = 0;
}

session-run : Reach.run session Plic.new false ≡ some (after_session, false)
unfolding Reach.run Reach.apply Plic.new Plic.needs_interrupt
session-run = refl

run-needs_interrupt_example : (Plic.needs_interrupt after_session ≡ false) × (false ≡ false)
run-needs_interrupt_example = Reach.run-needs_interrupt session after_session false session-run
