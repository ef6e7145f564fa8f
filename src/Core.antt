-- ===== src/Core.antt =====
-- The simulated RISC-V core, red-planet-core/src/core.
pub mod Clint
pub mod Status
pub mod Machine
pub mod Cause
pub mod Trap
pub mod Interrupts
pub mod Counters
pub mod Envcfg
pub mod State
pub mod Csr
pub mod Sound
pub mod Mmu
pub mod Step
pub mod Muldiv
pub mod Execute
