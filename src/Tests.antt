-- ===== src/Tests.antt =====
-- Runs of the models on small inputs, and the theorems applied to them.
pub mod Devices
pub mod Processor
pub mod Executor
pub mod Whole
pub mod Accesses
pub mod Timer
