-- ===== src/Blob.antt =====
-- The blob engine (crates/blob_engine/src): keys, the RocksDB store and the engine over it.
pub mod Key
pub mod Store
pub mod Verifier
pub mod Metrics
pub mod Engine
