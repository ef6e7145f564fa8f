-- ===== src/Tests/Timer.antt =====
-- A core over a bus with the timer of Core/Clint.antt on it: a store of an instruction raises the
-- interrupt of the core before the instruction is done.
use redplanet.Base.{
  ℕ, ◌/◌, ◌*◌, ◌≡◌, ◌==◌, ltb, refl, sym, arith, Bool, true, false, Option, none, some, List, [],
  ◌∷◌, length, bit_or, ◌+◌, ◌<<<◌, if◌then◌else◌, u32_to_le_bytes, u64_to_le_bytes,
}
use redplanet.Registers
use redplanet.Interrupt.{Signal}
use redplanet.Core.Machine.{Core}
use redplanet.Core.Cause.{Interrupt, Cause}
use redplanet.Core.Clint
use redplanet.Instruction.Fields
use redplanet.Core.Execute.Dispatch
use redplanet.Core.Mmu.Ports
use redplanet.Core.State.{SystemBus, BusOutcome, accessed, Rest}
use redplanet.Core.State
use redplanet.Core.Mmu.Sound.{to_le_bytes-IsBytes}
use redplanet.Core.Sound.{IsSoundBus, IsBytes}
use redplanet.Core.Mmu
use redplanet.Core.Step
use redplanet.Core.Step.Sound as StepSound
use redplanet.Core.Step.Laws as StepLaws
use redplanet.Tests.Whole.{config, hart_id-lt, vector-IsCodeAddress}

abbrev signalling : Clint.State × Signal → BusOutcome Clint.State (Unit {0})
signalling (s, signal) = accessed tt s ((Interrupt.machine_timer_interrupt, signal) ∷ [])

-- Below the registers of the timer, every word is `sw x0, 0(x5)`.
abbrev bytes_at : (buf : List ℕ) → (address : ℕ) → Clint.State → List ℕ
bytes_at buf address s =
    if ltb address 0x4000
    then Mmu.to_le_bytes (length buf) 0x0002_A023
    else Clint.read buf s address

unfoldable pub timer_bus : SystemBus Clint.State
timer_bus = record {
  read = λ buf address s. accessed (bytes_at buf address s) s [];
  read_debug = λ buf address s. some (bytes_at buf address s);
  write = λ address buf s. signalling (Clint.write address buf s);
  accepts = λ address size t. true;
}

-- With the timer due at its next tick, its interrupt on, and the address of mtimecmp in x5.
abbrev armed : Core (Rest Clint.State)
unfolding State.new config
armed =
    let c = State.new config (record { mtime = 9; mtimecmp = 10 }) in
    record c {
      registers = Registers.set_x c.registers 5 0x4000;
      hart = record c.hart {
        status = record { mstatus = 8; mstatush = 0 };
        rest = record c.hart.rest { interrupts = record c.hart.rest.interrupts { mie = 0x80 } };
      };
    }

IsAny : Clint.State → Type 0
IsAny s = Unit

if-IsBytes :
    (n : ℕ) (b : Bool) (k l : List ℕ)
    → (b ≡ true → IsBytes n k)
    → IsBytes n l
    → IsBytes n (if b then k else l)
if-IsBytes n true k l hk hl = hk refl
if-IsBytes n false k l hk hl = hl

four-IsBytes :
    (n v : ℕ) (buf : List ℕ)
    → length buf ≡ n
    → (length buf == 4) ≡ true
    → IsBytes n (u32_to_le_bytes v)
four-IsBytes n v buf len e =
    (ground arith, (omega arith, (omega arith, (omega arith, (omega arith, tt)))))

eight-IsBytes :
    (n v : ℕ) (buf : List ℕ)
    → length buf ≡ n
    → (length buf == 8) ≡ true
    → IsBytes n (u64_to_le_bytes v)
eight-IsBytes n v buf len e = (
  ground arith,
  (
    omega arith,
    (
      omega arith,
      (omega arith, (omega arith, (omega arith, (omega arith, (omega arith, (omega arith, tt)))))),
    ),
  ),
)

read-IsBytes :
    (n : ℕ) (buf : List ℕ) (address : ℕ) (s : Clint.State)
    → IsBytes n buf
    → IsBytes n (Clint.read buf s address)
unfolding Clint.read
read-IsBytes n buf address s h =
    if-IsBytes n (address == address / 4 * 4) supported buf
      (λ _.
        if-IsBytes n (length buf == 4) four other
          (λ e. four-IsBytes n (Clint.read_u32 s address) buf h.0 e)
          (if-IsBytes n (length buf == 8) eight buf (λ e. eight-IsBytes n wide buf h.0 e) h))
      h
  where
    wide : ℕ
    wide = bit_or (Clint.read_u32 s address <<< 32) (Clint.read_u32 s (address + 4))

    four : List ℕ
    four = u32_to_le_bytes (Clint.read_u32 s address)

    eight : List ℕ
    eight = u64_to_le_bytes wide

    other : List ℕ
    other = if length buf == 8 then eight else buf

    supported : List ℕ
    supported = if length buf == 4 then four else other

timer_bus-IsSound : IsSoundBus IsAny timer_bus
unfolding timer_bus IsAny
timer_bus-IsSound = record {
  bytes_read = λ n buf address s h p. (any_bytes n buf address s h, tt);
  bytes_written = λ n buf address s h p. tt;
}
  where
    any_bytes :
        (n : ℕ) (buf : List ℕ) (address : ℕ) (s : Clint.State)
        → IsBytes n buf
        → IsBytes n (bytes_at buf address s)
    any_bytes n buf address s h =
        if-IsBytes n (ltb address 0x4000) (Mmu.to_le_bytes (length buf) 0x0002_A023)
          (Clint.read buf s address)
          (λ _. rw (sym h.0) (to_le_bytes-IsBytes (length buf) 0x0002_A023))
          (read-IsBytes n buf address s h)

-- The cause of the last trap to M-mode, and where it came from.
seen : Step.Stepped (Rest Clint.State) → Option (Cause × ℕ)
seen (Step.stopped p) = none
seen (Step.stepped c) = some (c.hart.rest.trap.last_m_trap_cause, c.hart.mepc)

-- The store makes the timer raise its interrupt, and the same step takes it, after the store.
store_interrupts :
    seen (Step.step config timer_bus armed)
    ≡ some (Cause.interrupt (some Interrupt.machine_timer_interrupt), 0x1004)
unfolding Step.step config timer_bus seen armed Registers.set_x Fields.opcode Fields.s_width
    Fields.funct3 Dispatch.execute_store Ports.write_value State.after_calls Clint.write Fields.rs1
    Fields.s_imm Clint.needs_interrupt Fields.rs2
store_interrupts = refl

-- Ticks of the timer between the steps.
abbrev turns : List (StepLaws.Turn Clint.State)
turns =
    StepLaws.Turn.core_step
    ∷ StepLaws.Turn.device_tick (λ s. signalling (Clint.step s))
    ∷ StepLaws.Turn.core_step
    ∷ StepLaws.Turn.device_tick (λ s. signalling (Clint.step s))
    ∷ []

steps-new-IsSound_example :
    StepSound.IsSoundStep IsAny (StepLaws.steps config timer_bus turns (State.new config Clint.new))
unfolding IsAny
steps-new-IsSound_example =
    StepLaws.steps-new-IsSound IsAny config timer_bus timer_bus-IsSound hart_id-lt turns Clint.new
      (tt, ((λ s p. tt), (tt, ((λ s p. tt), tt)))) vector-IsCodeAddress tt
