-- ===== src/Types.antt =====
-- The data that the crates share (crates/types/src): rounds, proposal parts, validators,
-- blob metadata.
pub mod Round
pub mod Part
pub mod Validator
pub mod Metadata
