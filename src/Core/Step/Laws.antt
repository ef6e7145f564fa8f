-- ===== src/Core/Step/Laws.antt =====
-- Runs of `Core::step` of red-planet-core/src/core/mod.rs from a new core on.
use redplanet.Base.{◌^◌, ◌<◌, arith, List, [], ◌∷◌}
use redplanet.Registers.Laws.{new-IsValid}
use redplanet.Core.Machine.{Core, of_bus}
use redplanet.Core.Status
use redplanet.Core.Counters.Laws.{new-IsSound}
use redplanet.Core.Interrupts.Laws.{run, run-new-IsSound}
use redplanet.Core.Trap
use redplanet.Core.Envcfg
use redplanet.Core.State
use redplanet.Core.State.{BusOutcome, accessed, bus_panicked, with_bus, Rest, Config, SystemBus}
use redplanet.Core.Sound.{IsKept, CoreContract, IsSoundBus}
use redplanet.Core.Execute.Sound.{IsCodeAddress, IsSoundCore}
use redplanet.Core.Step
use redplanet.Core.Step.{Stepped, stepped, stopped}
use redplanet.Core.Csr.Sound.{with_bus-IsSound}
use redplanet.Core.Step.Sound.{IsSoundStep, step-IsSound}

-- A turn of the machine: a step of the core, or a tick of the devices, which may call on the core.
pub data Turn (B : Type 0) : Type 0 where
  core_step : Turn B
  device_tick : (B → BusOutcome B (Unit {0})) → Turn B

module _ {B : Type 0} (config : Config) (bus : SystemBus B) where
  abbrev ticked : Core (Rest B) → BusOutcome B (Unit {0}) → Stepped (Rest B)
  ticked c (accessed u b calls) = stepped (record c { hart = with_bus c.hart b calls })
  ticked c bus_panicked = stopped of_bus

  abbrev take : Turn B → Core (Rest B) → Stepped (Rest B)
  take core_step c = Step.step config bus c
  take (device_tick tick) c = ticked c (tick c.hart.rest.bus)

  abbrev and_then : Stepped (Rest B) → (Core (Rest B) → Stepped (Rest B)) → Stepped (Rest B)
  and_then (stopped p) f = stopped p
  and_then (stepped c) f = f c

  -- The turns, one after the other.
  unfoldable pub steps : List (Turn B) → Core (Rest B) → Stepped (Rest B)
  unfolding Step.step
  steps [] c = stepped c
  steps (t ∷ rest) c = and_then (take t c) (steps rest)

module _ {B : Type 0} (P : B → Type 0) (config : Config) (bus : SystemBus B) where
  pub new_core-IsSound :
      (b : B)
      → IsCodeAddress config.reset_vector
      → P b
      → IsSoundCore (CoreContract P) (State.new config b)
  unfolding State.new Status.new Trap.new Envcfg.new run
  new_core-IsSound b a p = record {
    valid = new-IsValid config.reset_vector;
    pc = a;
    hart = record {
      legal = record { word = omega arith; level = ground arith; high = omega arith };
      sepc = record { word = omega arith; aligned = omega arith };
      mepc = record { word = omega arith; aligned = omega arith };
      rest = record {
        counters = new-IsSound.0;
        control = new-IsSound.1;
        trap = record {
          m_base = record { word = omega arith; aligned = omega arith };
          s_base = record { word = omega arith; aligned = omega arith };
          mscratch = omega arith;
          sscratch = omega arith;
          delegate = omega arith;
          mtval = omega arith;
          mtval2 = omega arith;
          mtinst = omega arith;
          stval = omega arith;
          ppn = omega arith;
        };
        interrupts = run-new-IsSound [];
        envcfg = record { menvcfg = omega arith; menvcfgh = omega arith; senvcfg = omega arith };
        bus = p;
      };
    };
  }

  -- The ticks keep the invariant of what is attached to the bus.
  abbrev pub IsKeptTurn : Turn B → Type 0
  IsKeptTurn core_step = Unit
  IsKeptTurn (device_tick tick) = (b : B) → P b → IsKept P (tick b)

  abbrev pub AllKept : List (Turn B) → Type 0
  AllKept [] = Unit
  AllKept (t ∷ rest) = IsKeptTurn t × AllKept rest

  module _ (sound : IsSoundBus P bus) (id : config.hart_id < 2 ^ 32) where
    and_then-IsSound :
        (o : Stepped (Rest B)) (f : Core (Rest B) → Stepped (Rest B))
        → IsSoundStep P o
        → ((c : Core (Rest B)) → IsSoundCore (CoreContract P) c → IsSoundStep P (f c))
        → IsSoundStep P (and_then config bus o f)
    and_then-IsSound (stopped p) f h k = h
    and_then-IsSound (stepped c) f h k = k c h

    take-IsSound :
        (t : Turn B) (c : Core (Rest B))
        → IsKeptTurn t
        → IsSoundCore (CoreContract P) c
        → IsSoundStep P (take config bus t c)
    take-IsSound core_step c k s = step-IsSound P config bus sound id c s
    take-IsSound (device_tick tick) c k s =
        go (tick c.hart.rest.bus) (k c.hart.rest.bus s.hart.rest.bus)
      where
        go : (o : BusOutcome B (Unit {0})) → IsKept P o → IsSoundStep P (ticked config bus c o)
        go (accessed u b calls) kept = record {
          valid = s.valid;
          pc = s.pc;
          hart = with_bus-IsSound P c.hart s.hart b calls kept;
        }
        go bus_panicked kept = tt

    steps-IsSound :
        (turns : List (Turn B)) (c : Core (Rest B))
        → AllKept turns
        → IsSoundCore (CoreContract P) c
        → IsSoundStep P (steps config bus turns c)
    unfolding steps
    steps-IsSound [] c k s = s
    steps-IsSound (t ∷ rest) c (k, ks) s =
        and_then-IsSound (take config bus t c) _ (take-IsSound t c k s)
          (λ d. steps-IsSound rest d ks)

    -- A new core, over a sound bus and with a reset vector that is an aligned word, takes any sequence of
    -- steps, between which the devices tick as they like while they keep their invariant: either a device
    -- panics, or the core after them is sound; the core itself never panics. Handler addresses are as in a
    -- release build.
    pub steps-new-IsSound :
        (turns : List (Turn B)) (b : B)
        → AllKept turns
        → IsCodeAddress config.reset_vector
        → P b
        → IsSoundStep P (steps config bus turns (State.new config b))
    steps-new-IsSound turns b k a p =
        steps-IsSound turns (State.new config b) k (new_core-IsSound b a p)
