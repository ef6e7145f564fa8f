-- ===== src/Interrupt.antt =====
-- The interrupt line between a device and the core, red-planet-core/src/interrupt.rs. A device that
-- holds an `IrqCallback` calls `raise`, `lower` or neither; the call is the value that an update
-- returns, and a receiver that remembers the last call sees a line.
use redplanet.Base.{Bool, true, false}

pub data Signal : Type 0 where
  raise lower quiet : Signal

-- The level of the line after the call.
abbrev pub line_after : Bool → Signal → Bool
line_after line raise = true
line_after line lower = false
line_after line quiet = line

-- `match (irq_before, irq_after)` of the devices' `update`.
abbrev pub signal_of : (irq_before irq_after : Bool) → Signal
signal_of true false = lower
signal_of false true = raise
signal_of _ _ = quiet
