-- ===== src/Tests/Whole.antt =====
-- A core over a bus that reads one byte everywhere: runs of its steps, and the theorems on the whole
-- core, its traps, its CSRs and its translation at it.
use redplanet.Base.{
  ℕ, zero, suc, ◌^◌, ◌<◌, ◌≡◌, refl, arith, true, false, none, some, List, [], ◌∷◌, length,
  replicate, get_or,
}
use redplanet.Privilege.{PrivilegeLevel}
use redplanet.Registers
use redplanet.Instruction.Fields
use redplanet.Interrupt.{Signal}
use redplanet.Core.Machine.{Core, Exception}
use redplanet.Core.Execute.Sound as ExecuteSound
use redplanet.Core.Execute.System
use redplanet.Core.Status
use redplanet.Core.Cause.{Interrupt, Cause}
use redplanet.Core.Counters
use redplanet.Core.Counters.Laws as CountersLaws
use redplanet.Core.Interrupts
use redplanet.Core.Interrupts.Laws as InterruptsLaws
use redplanet.Core.Interrupts.Priority
use redplanet.Core.Trap.{cause_number, SatpMode}
use redplanet.Core.Trap
use redplanet.Core.Trap.Entry
use redplanet.Core.Trap.Saved
use redplanet.Core.State.{SystemBus, accessed, Rest, Config, AccessType}
use redplanet.Core.State
use redplanet.Core.Sound.{CoreContract, IsSoundBus, IsBytes}
use redplanet.Core.Mmu.Ports
use redplanet.Core.Mmu.Machine as MmuMachine
use redplanet.Core.Step
use redplanet.Core.Step.Sound as StepSound
use redplanet.Core.Step.Laws as StepLaws
use redplanet.Core.Step.Interrupted

-- Every read gives the byte that was written last, wherever that was, and every write raises the timer
-- interrupt.
unfoldable pub byte_bus : SystemBus ℕ
byte_bus = record {
  read = λ buf address b. accessed (replicate (length buf) b) b [];
  read_debug = λ buf address b. some (replicate (length buf) b);
  write = λ address buf b.
      accessed tt (get_or buf 0 b) ((Interrupt.machine_timer_interrupt, Signal.raise) ∷ []);
  accepts = λ address size t. true;
}

IsByte : ℕ → Type 0
IsByte b = b < 2 ^ 8

copies-IsBytes : (n b : ℕ) → b < 2 ^ 8 → IsBytes n (replicate n b)
copies-IsBytes zero b h = omega arith
copies-IsBytes (suc n) b h =
    let (len, bytes) = copies-IsBytes n b h in (omega (arith, len), (h, bytes))

byte_bus-IsSound : IsSoundBus IsByte byte_bus
unfolding byte_bus IsByte
byte_bus-IsSound = record {
  bytes_read = λ n buf address b h p. (read n buf b h p, p);
  bytes_written = λ n buf address b h p. written n buf b h p;
}
  where
    read :
        (n : ℕ) (buf : List ℕ) (b : ℕ)
        → IsBytes n buf
        → b < 2 ^ 8
        → IsBytes n (replicate (length buf) b)
    read n buf b h p =
        let (len, bytes) = copies-IsBytes (length buf) b p in (omega (arith, len, h.0), bytes)

    written : (n : ℕ) (buf : List ℕ) (b : ℕ) → IsBytes n buf → b < 2 ^ 8 → get_or buf 0 b < 2 ^ 8
    written n [] b h p = p
    written n (x ∷ rest) b h p = h.1.0

unfoldable pub config : Config
config = record {
  hart_id = 0;
  mtime_address = 0x1_1004;
  mtimecmp_address = 0x1_100C;
  support_misaligned_memory_access = true;
  strict_instruction_alignment = true;
  reset_vector = 0x1000;
  nmi_vector = 0x1000;
}

-- The memory is full of `lui x14, 0x37373`.
unfoldable pub start : Core (Rest ℕ)
unfolding State.new
start = State.new config 0x37

pub vector-IsCodeAddress : ExecuteSound.IsCodeAddress config.reset_vector
unfolding config
vector-IsCodeAddress = record { word = omega arith; aligned = refl }

start-IsSound : ExecuteSound.IsSoundCore (CoreContract IsByte) start
unfolding config IsByte start State.new
start-IsSound =
    StepLaws.new_core-IsSound IsByte config byte_bus 0x37 vector-IsCodeAddress (omega arith)

pub hart_id-lt : config.hart_id < 2 ^ 32
unfolding config
hart_id-lt = omega arith

x14_of : Step.Stepped (Rest ℕ) → ℕ
x14_of (Step.stopped p) = 0
x14_of (Step.stepped c) = Registers.x c.registers 14

lui_runs : x14_of (Step.step config byte_bus start) ≡ 0x3737_3000
unfolding Step.step config byte_bus start x14_of Fields.opcode Registers.x Registers.set_x Fields.rd
    Fields.u_imm
lui_runs = refl

step-IsSound_example : StepSound.IsSoundStep IsByte (Step.step config byte_bus start)
step-IsSound_example =
    StepSound.step-IsSound IsByte config byte_bus byte_bus-IsSound hart_id-lt start start-IsSound

machine-IsSound_example :
    ExecuteSound.IsSoundMachine (CoreContract IsByte) (Ports.machine config byte_bus)
machine-IsSound_example =
    MmuMachine.machine-IsSound IsByte config byte_bus byte_bus-IsSound hart_id-lt

run-new-IsSound_example : InterruptsLaws.IsSoundInterrupts (
    InterruptsLaws.run
      (InterruptsLaws.Event.line Interrupt.supervisor_external_interrupt Signal.raise
        ∷ InterruptsLaws.Event.mip 0 0x200
        ∷ [])
      Interrupts.new)
run-new-IsSound_example = InterruptsLaws.run-new-IsSound (
    InterruptsLaws.Event.line Interrupt.supervisor_external_interrupt Signal.raise
    ∷ InterruptsLaws.Event.mip 0 0x200
    ∷ [])

-- The timers of both levels are pending and enabled, and that of S-mode is delegated.
abbrev timers : Interrupts.Interrupts
timers = record {
  delegate = 0x20;
  seip_external = false;
  seip_internal = false;
  mip = 0xA0;
  mie = 0xA0;
}

ready-IsHighest_example :
    Priority.IsHighest
      (λ i. Priority.is_m_ready i timers)
      (Interrupts.highest_priority_m_ready timers)
    × Priority.IsHighest
        (λ i. Priority.is_s_ready i timers)
        (Interrupts.highest_priority_s_ready timers)
ready-IsHighest_example = Priority.ready-IsHighest timers (omega arith)

machine_timer_first :
    Interrupts.highest_priority_m_ready timers ≡ some Interrupt.machine_timer_interrupt
unfolding Interrupts.highest_priority_m_ready
machine_timer_first = refl

-- The low half of the cycle counter is about to wrap.
abbrev wrapping : Counters.Counters
wrapping = record {
  mcycle = 0xFFFF_FFFF;
  mcycleh = 7;
  minstret = 5;
  minstreth = 0;
  skip_next_mcycle_increment = false;
  skip_next_minstret_increment = false;
}

increment_counters_lem_example : CountersLaws.IsCounted Counters.new_control wrapping
increment_counters_lem_example =
    CountersLaws.increment_counters_lem Counters.new_control wrapping (record {
      mcycle = omega arith;
      mcycleh = omega arith;
      minstret = omega arith;
      minstreth = omega arith;
    })

-- U-mode with load page faults delegated, the S-level interrupts on, Sv32 on, and the timers pending.
unfoldable pub user : Core (Rest ℕ)
unfolding start State.new
user = record start {
  hart = record start.hart {
    privilege_mode = PrivilegeLevel.user;
    status = record { mstatus = 2; mstatush = 0 };
    rest = record start.hart.rest {
      trap = record start.hart.rest.trap { delegate_exception = 0x2000; satp_mode = SatpMode.sv32 };
      interrupts = timers;
    };
  };
}

abbrev pub load_page_fault : Cause
load_page_fault = Cause.exception (some (Exception.load_page_fault 0x8000_0000))

mret-trap_example :
    Saved.IsBack start
      (System.mret (Entry.trap (Cause.exception (some Exception.breakpoint)) start))
unfolding start State.new Saved.goes_to_s
mret-trap_example = Saved.mret-trap (Cause.exception (some Exception.breakpoint)) start refl

sret-trap_example : Saved.IsBack user (System.sret (Entry.trap load_page_fault user))
unfolding user start State.new Saved.goes_to_s Entry.should_delegate_cause
    Trap.should_delegate_exception Status.tsr
sret-trap_example = Saved.sret-trap load_page_fault user refl refl

-- Of the timers, only that of M-mode is ready for M-mode.
machine_timer_ready :
    Priority.IsHighest (λ j. Priority.is_m_ready j timers) (some Interrupt.machine_timer_interrupt)
machine_timer_ready = (refl, λ j h. go j h)
  where
    go : (j : Interrupt) → 4 < Priority.priority j → Priority.is_m_ready j timers ≡ false
    go Interrupt.machine_external_interrupt h = refl
    go Interrupt.machine_software_interrupt h = refl
    go Interrupt.machine_timer_interrupt h = absurd (omega (arith, h))
    go Interrupt.supervisor_external_interrupt h = refl
    go Interrupt.supervisor_software_interrupt h = refl
    go Interrupt.supervisor_timer_interrupt h = absurd (omega (arith, h))

step-takes_ready_example :
    Step.step config byte_bus user
    ≡ Step.stepped (Entry.trap (Cause.interrupt (some Interrupt.machine_timer_interrupt)) user)
unfolding user start State.new
step-takes_ready_example =
    Interrupted.step-takes_ready config byte_bus user Interrupt.machine_timer_interrupt
      (omega arith) machine_timer_ready refl

-- M-mode with interrupts on, where only the timer of S-mode is pending, and delegated.
abbrev delegated : Core (Rest ℕ)
unfolding start State.new
delegated = record start {
  hart = record start.hart {
    status = record { mstatus = 8; mstatush = 0 };
    rest = record start.hart.rest { interrupts = record timers { mip = 0x20 } };
  };
}

supervisor_timer_ready :
    Priority.IsHighest (λ j. Priority.is_m_ready j (record timers { mip = 0x20 })) none
    × Priority.IsHighest
        (λ j. Priority.is_s_ready j (record timers { mip = 0x20 }))
        (some Interrupt.supervisor_timer_interrupt)
supervisor_timer_ready = (machine, (refl, supervisor))
  where
    machine : (j : Interrupt) → Priority.is_m_ready j (record timers { mip = 0x20 }) ≡ false
    machine Interrupt.machine_external_interrupt = refl
    machine Interrupt.machine_software_interrupt = refl
    machine Interrupt.machine_timer_interrupt = refl
    machine Interrupt.supervisor_external_interrupt = refl
    machine Interrupt.supervisor_software_interrupt = refl
    machine Interrupt.supervisor_timer_interrupt = refl

    supervisor :
        (j : Interrupt)
        → 1 < Priority.priority j
        → Priority.is_s_ready j (record timers { mip = 0x20 }) ≡ false
    supervisor Interrupt.machine_external_interrupt h = refl
    supervisor Interrupt.machine_software_interrupt h = refl
    supervisor Interrupt.machine_timer_interrupt h = refl
    supervisor Interrupt.supervisor_external_interrupt h = refl
    supervisor Interrupt.supervisor_software_interrupt h = refl
    supervisor Interrupt.supervisor_timer_interrupt h = absurd (omega (arith, h))

step-takes_delegated_example :
    Step.step config byte_bus delegated
    ≡ Step.stepped (
        Entry.trap_to_m_mode
          (Cause.interrupt (some Interrupt.supervisor_timer_interrupt))
          delegated)
unfolding delegated start State.new Status.mie
step-takes_delegated_example =
    Interrupted.step-takes_delegated config byte_bus delegated Interrupt.supervisor_timer_interrupt
      (omega arith) refl refl supervisor_timer_ready.0 supervisor_timer_ready.1
