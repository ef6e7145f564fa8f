-- ===== src/Lib.antt =====
-- A model of the core of the RISC-V simulator Red Planet and of two devices that interrupt it,
-- with the theorems that make them correct.
--
-- The program. red-planet-core simulates an RV32IMA machine. The core
-- (red-planet-core/src/core/mod.rs) takes a ready interrupt or fetches a word through its memory
-- management unit (core/mmu.rs), decodes it (instruction.rs) and runs it (core/execute.rs) on the
-- registers (registers.rs), the CSRs (core/status.rs, core/trap.rs, core/interrupts.rs,
-- core/counters.rs, core/counter_control.rs, core/envcfg.rs, by the numbers of core/csr.rs) and
-- the memory behind the system bus (bus.rs, system_bus.rs); it counts, and an exception becomes a
-- trap. The timer (core/clint.rs) and the interrupt controller (resources/plic.rs) sit on the bus
-- and drive interrupt lines (interrupt.rs). All state lives in an allocator, so that simulator.rs
-- can go back in time over space-time.
--
-- Which file models which part. Registers.antt models registers.rs: the record Registers and the
-- functions x, set_x, replace_x, with the specifiers as numbers. Instruction/ models
-- instruction.rs: Types has its enums, Fields the functions that cut fields out of a word, Decode
-- the function decode; Encode is a reference encoder written from the instruction formats of the
-- RISC-V specification, not from the program, Immediates and Range are about the fields,
-- RoundTrip about both. Privilege.antt and Alignment.antt model the levels, alignments and byte
-- orders of lib.rs. Core/Status.antt and Core/Status/Csr.antt model core/status.rs, field by
-- field in the order of the source; Core/Trap.antt has the registers of core/trap.rs and
-- Core/Trap/Entry.antt its function trap; Core/Cause.antt the codes of traps;
-- Core/Interrupts.antt, Core/Counters.antt and Core/Envcfg.antt the source files of their names.
-- Core/Csr.antt has the checks of csr.rs, Core/Csr/Names.antt its numbers as a table,
-- Core/Csr/Read.antt and Core/Csr/Write.antt the functions read_csr and write_csr. Core/Mmu.antt
-- models the translation of core/mmu.rs and Core/Mmu/Ports.antt its reads, writes and fetch;
-- Core/Mmu/Reference.antt is Sv32 as the privileged specification has it, not taken from the
-- program, but for the page in a megapage, a parameter. Core/Machine.antt has the state that the
-- executor works on and the interface to the memory management unit and the CSRs,
-- Core/Execute.antt the private generic functions of execute.rs, and its children Arithmetic,
-- Memory and System one function for each of its public methods; Dispatch models
-- execute_instruction and execute_raw_instruction of core/mod.rs. Core/Muldiv.antt has the
-- closures of the M extension. Core/State.antt has the rest of the state, with new, reset and
-- nmi, and Core/Step.antt the function step. Core/Clint.antt models core/clint.rs,
-- Resources/Plic.antt models resources/plic.rs, Interrupt.antt the line between a device and the
-- core, and AddressRange.antt address_range.rs.
--
-- How code becomes definitions. A method that changes the state behind the allocator takes the
-- state and returns it. The executor returns an Outcome: the state after the instruction, the
-- exception with the state it leaves, or a panic. A CSR or memory access returns a Result: the
-- value, the error or a panic, each but the last with the state. A step is stepped or stopped by
-- a panic; a Panic says whether it is of the core or of a device behind the bus. In the interrupt
-- controller none is a panic. A w-bit integer is a number below 2 ^ w with the wrap-around
-- written out, an i32 the word of its two's complement. A device's update returns the call it
-- makes on its interrupt callback.
--
-- Interfaces. The executor takes a record Machine of the operations of the memory management unit
-- and of the CSR file; the theorems that need it take IsSoundMachine, which says that those
-- operations read values of their width, and keep a legal status and word-aligned return
-- addresses. Core/Mmu/Machine.antt fills both over any bus. The core takes a record SystemBus: an
-- access gives its value, the state of the devices and the calls that they made on the interrupt
-- callbacks of the core (board/mod.rs), which reach the interrupt registers before the access
-- returns, or it is the panic of a device. Its theorems take IsSoundBus: an invariant of what is
-- attached that accesses keep, and that a read fills its buffer with bytes, unless a device
-- panics. Between steps the devices tick, with calls of their own: a Turn of Core/Step/Laws.antt.
-- As the documentation of the trait asks, whether a bus accepts an access depends on neither its
-- state nor the core's. Tests/Executor.antt and Tests/Whole.antt fill them with a small machine
-- and a small bus; Tests/Timer.antt has a bus with the timer of Core/Clint.antt on it, where a
-- store interrupts the core.
--
-- Bounds. No definition runs on fuel: all recursion is structural, over the two levels of the
-- page tables, the 53 interrupt sources, the bytes of a buffer or a list of operations. The
-- address of a vectored trap handler is computed as a release build does, modulo 2 ^ 32; a debug
-- build panics where the sum does not fit.
--
-- Not modelled: the address map and the board, which attach devices to the bus, RAM, ROM and
-- UART, the simulator's history and the space-time allocators, all of which are left for later;
-- logging, the texts of errors, the command line, the debugger server and the terminal interface,
-- which are input and output.
pub mod Base
pub mod Registers
pub mod Instruction
pub mod Interrupt
pub mod Core
pub mod Privilege
pub mod AddressRange
pub mod Alignment
pub mod Resources
pub mod Tests
