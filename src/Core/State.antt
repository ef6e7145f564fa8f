-- ===== src/Core/State.antt =====
-- The state of a core beside its registers, `Core` of red-planet-core/src/core/mod.rs, and the bus that
-- it drives, the traits `Bus` and `SystemBus` of bus.rs and system_bus.rs. The executor's part of the
-- state is in Core/Machine.antt; the rest of it is `Rest`.
use redplanet.Base.{ℕ, Bool, false, List, [], ◌∷◌, Option, none}
use redplanet.Registers
use redplanet.Privilege.{PrivilegeLevel}
use redplanet.Core.Status
use redplanet.Interrupt.{Signal}
use redplanet.Core.Cause.{Cause, Interrupt}
use redplanet.Core.Machine.{Hart, Core, Result, success, crashed, of_bus}
use redplanet.Core.Trap
use redplanet.Core.Interrupts
use redplanet.Core.Counters
use redplanet.Core.Envcfg

pub data AccessType : Type 0 where
  read write execute : AccessType

-- A call on an interrupt callback of the core.
abbrev pub Call : Type 0
Call = Interrupt × Signal

-- An access of the bus: what it returns, the state of the devices after it, and the calls that they
-- made on the core while it ran, in their order; or the panic of a device.
pub data BusOutcome (B A : Type 0) : Type 0 where
  accessed : A → B → List Call → BusOutcome B A
  bus_panicked : BusOutcome B A

-- A bus over the state `B` of what is attached to it. A read is given the buffer that it fills. A debug
-- read leaves all state as it is; `none` is a panic. `accepts` depends on the address, the size and the
-- type only.
pub record SystemBus (B : Type 0) : Type 0 where
  pub read : (buf : List ℕ) → (address : ℕ) → B → BusOutcome B (List ℕ)
  pub read_debug : (buf : List ℕ) → (address : ℕ) → B → Option (List ℕ)
  pub write : (address : ℕ) → (buf : List ℕ) → B → BusOutcome B (Unit {0})
  pub accepts : (address size : ℕ) → AccessType → Bool

-- The fields of `Config` that the core reads.
pub record Config : Type 0 where
  pub hart_id : ℕ
  pub mtime_address : ℕ
  pub mtimecmp_address : ℕ
  pub support_misaligned_memory_access : Bool
  pub strict_instruction_alignment : Bool
  pub reset_vector : ℕ
  pub nmi_vector : ℕ

unfoldable pub after_calls : List Call → Interrupts.Interrupts → Interrupts.Interrupts
unfolding Interrupts.signalled
after_calls [] s = s
after_calls ((interrupt, signal) ∷ rest) s =
    after_calls rest (Interrupts.signalled interrupt signal s)

pub record Rest (B : Type 0) : Type 0 where
  pub counters : Counters.Counters
  pub counter_control : Counters.CounterControl
  pub trap : Trap.Trap
  pub interrupts : Interrupts.Interrupts
  pub envcfg : Envcfg.Envcfg
  pub bus : B

module _ {B : Type 0} where
  abbrev pub with_rest : Hart (Rest B) → Rest B → Hart (Rest B)
  with_rest h r = record h { rest = r }

  -- The devices after an access, and the interrupt registers after the calls that they made.
  abbrev pub with_bus : Hart (Rest B) → B → List Call → Hart (Rest B)
  with_bus h b calls =
      with_rest h (record h.rest { bus = b; interrupts = after_calls calls h.rest.interrupts })

  abbrev pub settle :
      {E A C : Type 0} → (A → C) → Hart (Rest B) → BusOutcome B A → Result E (Hart (Rest B)) C
  settle f h (accessed value b calls) = success (f value) (with_bus h b calls)
  settle f h bus_panicked = crashed of_bus

  abbrev pub with_trap : Hart (Rest B) → Trap.Trap → Hart (Rest B)
  with_trap h t = with_rest h (record h.rest { trap = t })

  abbrev pub with_counters : Hart (Rest B) → Counters.Counters → Hart (Rest B)
  with_counters h s = with_rest h (record h.rest { counters = s })

  abbrev pub with_control : Hart (Rest B) → Counters.CounterControl → Hart (Rest B)
  with_control h s = with_rest h (record h.rest { counter_control = s })

  abbrev pub with_interrupts : Hart (Rest B) → Interrupts.Interrupts → Hart (Rest B)
  with_interrupts h s = with_rest h (record h.rest { interrupts = s })

  abbrev pub with_envcfg : Hart (Rest B) → Envcfg.Envcfg → Hart (Rest B)
  with_envcfg h s = with_rest h (record h.rest { envcfg = s })

  abbrev pub with_status : Hart (Rest B) → Status.Status → Hart (Rest B)
  with_status h s = record h { status = s }

  unfoldable pub new : Config → B → Core (Rest B)
  unfolding Registers.new Status.new Counters.new Counters.new_control Trap.new Interrupts.new
      Envcfg.new
  new config bus = record {
    registers = Registers.new config.reset_vector;
    hart = record {
      privilege_mode = PrivilegeLevel.machine;
      status = Status.new;
      sepc = 0;
      mepc = 0;
      rest = record {
        counters = Counters.new;
        counter_control = Counters.new_control;
        trap = Trap.new;
        interrupts = Interrupts.new;
        envcfg = Envcfg.new;
        bus = bus;
      };
    };
  }

  unfoldable pub reset : Config → Core (Rest B) → Core (Rest B)
  unfolding Registers.new Counters.new Counters.new_control Envcfg.new Trap.set_m_trap_cause
      Status.set_mie Status.set_mprv Status.set_mbe
  reset config c = record {
    registers = Registers.new config.reset_vector;
    hart = record {
      privilege_mode = PrivilegeLevel.machine;
      status = Status.set_mbe false (Status.set_mprv false (Status.set_mie false c.hart.status));
      sepc = c.hart.sepc;
      mepc = c.hart.mepc;
      rest = record {
        counters = Counters.new;
        counter_control = Counters.new_control;
        trap = Trap.set_m_trap_cause (Cause.exception none) c.hart.rest.trap;
        interrupts = c.hart.rest.interrupts;
        envcfg = Envcfg.new;
        bus = c.hart.rest.bus;
      };
    };
  }

  unfoldable pub nmi : Config → Core (Rest B) → Core (Rest B)
  unfolding Registers.set_pc Trap.set_m_trap_cause
  nmi config c = record {
    registers = Registers.set_pc c.registers config.nmi_vector;
    hart = record {
      privilege_mode = PrivilegeLevel.machine;
      status = c.hart.status;
      sepc = c.hart.sepc;
      mepc = c.registers.pc;
      rest = record c.hart.rest {
        trap = Trap.set_m_trap_cause (Cause.interrupt none) c.hart.rest.trap;
      };
    };
  }
