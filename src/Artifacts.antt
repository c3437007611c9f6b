-- ===== src/Artifacts.antt =====
-- ledger/artifacts.py: the local store of bytes by digest, and how its artifacts enter the ledger.
pub mod Error
pub mod Files
pub mod Kept
pub mod Entered
pub mod Settled
pub mod Reverified
