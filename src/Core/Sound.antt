-- ===== src/Core/Sound.antt =====
-- The invariant of the whole core: that of Core/Execute/Sound.antt, with what the CSRs, the memory
-- management unit and the bus need of the rest of the state.
use redplanet.Base.{ℕ, zero, suc, ◌^◌, ◌<◌, ◌≡◌, arith, List, [], ◌∷◌, length}
use native.Mathlib.Nat.{pow-suc}
use redplanet.Core.Trap.Laws.{IsSoundTrap}
use redplanet.Core.Interrupts.Laws.{IsSoundInterrupts}
use redplanet.Core.Counters.Laws.{IsSoundCounters, IsSoundControl}
use redplanet.Core.Envcfg
use redplanet.Core.Machine.{Panic, of_core, of_bus}
use redplanet.Core.Execute.Sound.{Contract}
use redplanet.Core.State.{SystemBus, BusOutcome, accessed, bus_panicked, Rest}
use redplanet.Core.Csr.Read.{from_le_bytes}

abbrev pub AllBytes : List ℕ → Type 0
AllBytes [] = Unit
AllBytes (b ∷ rest) = (b < 2 ^ 8) × AllBytes rest

-- `n` bytes.
abbrev pub IsBytes : ℕ → List ℕ → Type 0
IsBytes n buf = (length buf ≡ n) × AllBytes buf

pub record IsSoundEnvcfg (s : Envcfg.Envcfg) : Type 0 where
  pub menvcfg : s.menvcfg < 2 ^ 32
  pub menvcfgh : s.menvcfgh < 2 ^ 32
  pub senvcfg : s.senvcfg < 2 ^ 32

-- A panic is that of a device.
abbrev pub IsOfBus : Panic → Type 0
IsOfBus of_core = ⊥
IsOfBus of_bus = Unit

module _ {B : Type 0} (P : B → Type 0) where
  pub record IsSoundRest (r : Rest B) : Type 0 where
    pub counters : IsSoundCounters r.counters
    pub control : IsSoundControl r.counter_control
    pub trap : IsSoundTrap r.trap
    pub interrupts : IsSoundInterrupts r.interrupts
    pub envcfg : IsSoundEnvcfg r.envcfg
    pub bus : P r.bus

  -- What the executor needs of the core: the invariant, with no panic of its own.
  abbrev pub CoreContract : Contract (Rest B)
  CoreContract = record { holds = IsSoundRest; allows = IsOfBus }

  abbrev pub IsBytesRead : ℕ → BusOutcome B (List ℕ) → Type 0
  IsBytesRead n (accessed buf b calls) = IsBytes n buf × P b
  IsBytesRead n bus_panicked = Unit

  abbrev pub IsKept : BusOutcome B (Unit {0}) → Type 0
  IsKept (accessed u b calls) = P b
  IsKept bus_panicked = Unit

  -- Unless it panics, a bus keeps its own invariant `P`, fills the whole of a buffer or leaves it, and
  -- reads bytes. It may call on the core as it likes.
  pub record IsSoundBus (bus : SystemBus B) : Type 0 where
    pub bytes_read :
        (n : ℕ) (buf : List ℕ) (address : ℕ) (b : B)
        → IsBytes n buf
        → P b
        → IsBytesRead n (bus.read buf address b)
    pub bytes_written :
        (n : ℕ) (buf : List ℕ) (address : ℕ) (b : B)
        → IsBytes n buf
        → P b
        → IsKept (bus.write address buf b)

pub from_le_bytes-lt : (n : ℕ) (l : List ℕ) → IsBytes n l → from_le_bytes l < 256 ^ n
unfolding from_le_bytes
from_le_bytes-lt zero [] h = omega arith
from_le_bytes-lt zero (b ∷ rest) h = absurd (omega (arith, h.0))
from_le_bytes-lt (suc n) [] h = absurd (omega (arith, h.0))
from_le_bytes-lt (suc n) (b ∷ rest) h =
    omega (arith, h.1.0, pow-suc 256 n, from_le_bytes-lt n rest (omega (arith, h.0), h.1.1))
