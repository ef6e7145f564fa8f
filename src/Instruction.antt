-- ===== src/Instruction.antt =====
-- Decoded instructions and their decoding, red-planet-core/src/instruction.rs: the data in `Types`,
-- the fields of an encoded word in `Fields`, the decoder in `Decode`. `Immediates`, `Encode` and
-- `RoundTrip` are about them.
pub mod Types
pub mod Fields
pub mod Decode
pub mod Encode
pub mod Immediates
pub mod Functs
pub mod Steps
pub mod Words
pub mod RoundTrip
pub mod Range
