-- ===== src/Core/Step/Sound.antt =====
-- A step keeps the invariant of the core, and panics only where a device does.
use redplanet.Base.{ℕ, ◌^◌, ◌<◌, ◌≡◌, refl, Bool, true, false, Option, none, some}
use redplanet.Registers.{Registers}
use redplanet.Registers.Laws.{IsValid}
use redplanet.Instruction.Types.{Instruction}
use redplanet.Instruction.Decode.{Decoded, ok, err, decode}
use redplanet.Instruction.Range.{IsInRange, decode-IsInRange}
use redplanet.Core.Machine.{
  Exception, MemoryError, Hart, Core, Access, Outcome, success, failure, crashed, done, raised,
  panicked,
}
use redplanet.Core.Cause.{Interrupt, Cause}
use redplanet.Core.Counters.Laws.{
  increment_cycle_counter-IsSound, increment_instret_counter-IsSound,
}
use redplanet.Core.State.{Rest, Config, SystemBus}
use redplanet.Core.Sound.{IsOfBus, CoreContract, IsSoundBus}
use redplanet.Core.Execute.Sound.{
  Contract, IsCodeAddress, IsWordException, IsSoundCore, IsSoundOutcome, IsSoundRead,
}
use redplanet.Core.Execute.Sound.Every.{execute_instruction-IsSound}
use redplanet.Core.Mmu.Machine.{machine-IsSound, fetch_instruction-IsSound}
use redplanet.Core.Mmu.Ports.{machine}
use redplanet.Core.Csr.Sound.{with_counters-IsSound}
use redplanet.Core.Step
use redplanet.Core.Step.{Stepped, stepped, stopped}
use redplanet.Core.Trap.Sound.{trap-IsSound}

module _ {B : Type 0} (P : B → Type 0) where
  abbrev R : Contract (Rest B)
  R = CoreContract P

  check-IsSound :
      (c : Core (Rest B)) → IsSoundCore R c → IsSoundCore R (Step.check_for_interrupts c).0
  unfolding Step.check_for_interrupts
  check-IsSound c s = go (Step.highest_priority_ready_interrupt c.hart)
    where
      go : (o : Option Interrupt) → IsSoundCore R (Step.take_interrupt o c).0
      go none = s
      go (some i) = trap-IsSound P (Cause.interrupt (some i)) c tt s

  count_cycle-IsSound : (c : Core (Rest B)) → IsSoundCore R c → IsSoundCore R (Step.count_cycle c)
  unfolding Step.count_cycle
  count_cycle-IsSound c s = record {
    valid = s.valid;
    pc = s.pc;
    hart = with_counters-IsSound P c.hart s.hart _ (
        increment_cycle_counter-IsSound c.hart.rest.counter_control c.hart.rest.counters
          s.hart.rest.counters);
  }

  count_instret-IsSound :
      (c : Core (Rest B)) → IsSoundCore R c → IsSoundCore R (Step.count_instret c)
  unfolding Step.count_instret
  count_instret-IsSound c s = record {
    valid = s.valid;
    pc = s.pc;
    hart = with_counters-IsSound P c.hart s.hart _ (
        increment_instret_counter-IsSound c.hart.rest.counter_control c.hart.rest.counters
          s.hart.rest.counters);
  }

  update-IsSound :
      (b : Bool) (c : Core (Rest B)) → IsSoundCore R c → IsSoundCore R (Step.update_counters b c)
  unfolding Step.update_counters
  update-IsSound true c s = count_instret-IsSound _ (count_cycle-IsSound c s)
  update-IsSound false c s = count_cycle-IsSound c s

  -- A sound core is the result, or the panic of a device.
  abbrev pub IsSoundStep : Stepped (Rest B) → Type 0
  IsSoundStep (stopped p) = IsOfBus p
  IsSoundStep (stepped c) = IsSoundCore R c

  conclude-IsSound :
      (b : Bool) (o : Outcome (Rest B)) → IsSoundOutcome R o → IsSoundStep (Step.conclude b o)
  unfolding Step.conclude
  conclude-IsSound b (done c) s = update-IsSound b c s
  conclude-IsSound b (raised e c) (k, s) =
      trap-IsSound P (Cause.exception (some e)) _ k (update-IsSound b c s)
  conclude-IsSound b (panicked p) s = s

  module _ (config : Config) (bus : SystemBus B) (sound : IsSoundBus P bus)
      (id : config.hart_id < 2 ^ 32) where
    decoded-IsSound :
        (raw : ℕ) (d : Decoded) (c : Core (Rest B))
        → raw < 2 ^ 32
        → ((i : Instruction) → d ≡ ok i → IsInRange i)
        → IsSoundCore R c
        → IsSoundStep (Step.step_with config bus (Step.of_decoded config bus raw d) c)
    unfolding Step.step_with
    decoded-IsSound raw (ok i) c w k s = conclude-IsSound (Step.is_counted i) _ (
        execute_instruction-IsSound (machine config bus) (machine-IsSound P config bus sound id) i c
          s (k i refl))
    decoded-IsSound raw (err e) c w k s =
        conclude-IsSound false (raised (Exception.illegal_instruction (some raw)) c) (w, s)

    fetch_error-IsWord :
        (pc : ℕ) (e : MemoryError) → pc < 2 ^ 32 → IsWordException (Step.fetch_error pc e)
    fetch_error-IsWord pc MemoryError.misaligned_access h = h
    fetch_error-IsWord pc MemoryError.access_fault h = h
    fetch_error-IsWord pc MemoryError.page_fault h = h

    step_with_raw-IsSound :
        (r : Registers) (o : Access (Hart (Rest B)) ℕ)
        → IsValid r
        → IsCodeAddress r.pc
        → IsSoundRead R (2 ^ 32) o
        → IsSoundStep (Step.step_with_raw config bus r o)
    unfolding Step.step_with Step.step_with_raw
    step_with_raw-IsSound r (success raw h) v a (w, s) =
        decoded-IsSound raw (decode raw) _ w (λ i e. decode-IsInRange raw i w e)
          (record { valid = v; pc = a; hart = s })
    step_with_raw-IsSound r (failure e h) v a s =
        conclude-IsSound false (raised (Step.fetch_error r.pc e) _)
          (fetch_error-IsWord r.pc e a.word, record { valid = v; pc = a; hart = s })
    step_with_raw-IsSound r (crashed p) v a s = s

    -- Over a bus that keeps its invariant and reads bytes unless a device panics, and whose devices may
    -- call on the core during any access, a step of a sound core gives a sound core, or ends in the panic
    -- of a device: the core itself never panics, whatever the memory holds, whether an interrupt is taken,
    -- the fetch faults, the word is no instruction, or the instruction completes or raises an exception.
    -- The address of a vectored handler is computed modulo 2 ^ 32, as a release build does.
    pub step-IsSound : (c : Core (Rest B)) → IsSoundCore R c → IsSoundStep (Step.step config bus c)
    unfolding Step.step Step.then_interrupts Step.unless_interrupted
    step-IsSound c s = go (Step.check_for_interrupts c) (check-IsSound c s)
      where
        finish :
            (o : Stepped (Rest B)) → IsSoundStep o → IsSoundStep (Step.then_interrupts config bus o)
        finish (stopped p) k = k
        finish (stepped c) k = check-IsSound c k

        go :
            (p : Core (Rest B) × Bool)
            → IsSoundCore R p.0
            → IsSoundStep (Step.unless_interrupted config bus p)
        go (c, true) k = k
        go (c, false) k = finish _ (
            step_with_raw-IsSound c.registers _ k.valid k.pc
              (fetch_instruction-IsSound P config bus sound c.registers.pc c.hart k.hart))
