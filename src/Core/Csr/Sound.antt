-- ===== src/Core/Csr/Sound.antt =====
-- Replacing a part of the core by a sound one keeps the invariant of the core.
pub mod Reads
pub mod Writes
use redplanet.Base.{
  List, [], ◌∷◌, ℕ, ◌^◌, ◌≤◌, ◌<◌, ◌≡◌, ◌≢◌, refl, arith, Bool, true, false, not, ltb, Option, none,
  some, if◌then◌else◌, replicate, u32, ◌>>>◌, Bool-cases, inl, inr,
}
use redplanet.Base.Bounds.{bit_and-lt}
use redplanet.Base.Masks.{masked-lt}
use redplanet.Privilege.{PrivilegeLevel}
use redplanet.Instruction.Types.{CsrSpecifier}
use redplanet.Core.Machine.{Hart, CsrAccessError, CsrWriteError, success, failure, crashed}
use redplanet.Core.Status
use redplanet.Core.Status.Csr as StatusCsr
use redplanet.Core.Status.Laws.{IsLegal, write_mstatus-IsLegal}
use redplanet.Core.Trap
use redplanet.Core.Trap.Laws as TrapLaws
use redplanet.Core.Trap.Laws.{IsSoundTrap}
use redplanet.Core.Interrupts
use redplanet.Core.Interrupts.Laws as InterruptsLaws
use redplanet.Core.Counters
use redplanet.Core.Counters.Laws as CountersLaws
use redplanet.Core.Envcfg
use redplanet.Core.State.{
  Call, after_calls, Rest, Config, SystemBus, with_rest, with_bus, with_trap, with_counters,
  with_control, with_interrupts, with_envcfg, with_status,
}
use redplanet.Core.Execute.Sound.{Contract, IsSoundHart, IsSoundCsrRead, IsSoundCsrWrite}
use redplanet.Core.Sound.{CoreContract, IsSoundRest, IsSoundBus, IsSoundEnvcfg}
use redplanet.Core.Csr
use redplanet.Core.Csr.Names.{Csr, Fits, name_of, name_of-Fits}
use redplanet.Core.Csr.Read
use redplanet.Core.Csr.Write

pub hpm_in_range : (n : ℕ) → 3 ≤ n → n ≤ 31 → Counters.is_hpm_number n ≡ true
hpm_in_range n h k = ground (arith, h, k)

-- The interrupt registers stay sound under the calls of the devices.
after_calls-IsSound :
    (calls : List Call) (s : Interrupts.Interrupts)
    → InterruptsLaws.IsSoundInterrupts s
    → InterruptsLaws.IsSoundInterrupts (after_calls calls s)
unfolding after_calls
after_calls-IsSound [] s h = h
after_calls-IsSound ((interrupt, signal) ∷ rest) s h =
    after_calls-IsSound rest _ (InterruptsLaws.signalled-IsSound interrupt signal s h)

module _ {B : Type 0} (P : B → Type 0) where
  abbrev pub R : Contract (Rest B)
  R = CoreContract P

  abbrev pub IsSound : Hart (Rest B) → Type 0
  IsSound = IsSoundHart R

  with_rest-IsSound :
      (h : Hart (Rest B)) (r : Rest B) → IsSound h → IsSoundRest P r → IsSound (with_rest h r)
  with_rest-IsSound h r s k = record { legal = s.legal; sepc = s.sepc; mepc = s.mepc; rest = k }

  module _ (h : Hart (Rest B)) (s : IsSound h) where
    pub with_counters-IsSound :
        (v : Counters.Counters) → CountersLaws.IsSoundCounters v → IsSound (with_counters h v)
    with_counters-IsSound v k = with_rest-IsSound h _ s (record {
      counters = k;
      control = s.rest.control;
      trap = s.rest.trap;
      interrupts = s.rest.interrupts;
      envcfg = s.rest.envcfg;
      bus = s.rest.bus;
    })

    pub with_control-IsSound :
        (v : Counters.CounterControl) → CountersLaws.IsSoundControl v → IsSound (with_control h v)
    with_control-IsSound v k = with_rest-IsSound h _ s (record {
      counters = s.rest.counters;
      control = k;
      trap = s.rest.trap;
      interrupts = s.rest.interrupts;
      envcfg = s.rest.envcfg;
      bus = s.rest.bus;
    })

    pub with_trap-IsSound : (v : Trap.Trap) → IsSoundTrap v → IsSound (with_trap h v)
    with_trap-IsSound v k = with_rest-IsSound h _ s (record {
      counters = s.rest.counters;
      control = s.rest.control;
      trap = k;
      interrupts = s.rest.interrupts;
      envcfg = s.rest.envcfg;
      bus = s.rest.bus;
    })

    pub with_interrupts-IsSound :
        (v : Interrupts.Interrupts)
        → InterruptsLaws.IsSoundInterrupts v
        → IsSound (with_interrupts h v)
    with_interrupts-IsSound v k = with_rest-IsSound h _ s (record {
      counters = s.rest.counters;
      control = s.rest.control;
      trap = s.rest.trap;
      interrupts = k;
      envcfg = s.rest.envcfg;
      bus = s.rest.bus;
    })

    pub with_envcfg-IsSound : (v : Envcfg.Envcfg) → IsSoundEnvcfg v → IsSound (with_envcfg h v)
    with_envcfg-IsSound v k = with_rest-IsSound h _ s (record {
      counters = s.rest.counters;
      control = s.rest.control;
      trap = s.rest.trap;
      interrupts = s.rest.interrupts;
      envcfg = k;
      bus = s.rest.bus;
    })

    pub with_bus-IsSound : (v : B) (calls : List Call) → P v → IsSound (with_bus h v calls)
    with_bus-IsSound v calls k = with_rest-IsSound h _ s (record {
      counters = s.rest.counters;
      control = s.rest.control;
      trap = s.rest.trap;
      interrupts = after_calls-IsSound calls h.rest.interrupts s.rest.interrupts;
      envcfg = s.rest.envcfg;
      bus = k;
    })

    pub with_status-IsSound : (v : Status.Status) → IsLegal v → IsSound (with_status h v)
    with_status-IsSound v k = record { legal = k; sepc = s.sepc; mepc = s.mepc; rest = s.rest }
