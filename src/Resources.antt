-- ===== src/Resources.antt =====
-- The devices on the system bus, red-planet-core/src/resources.
pub mod Plic
