-- ===== src/Vocabulary.antt =====
-- ledger/vocabulary.py: the frozen terms of the ledger and the checks that every write passes.
pub mod Terms
pub mod Relations
pub mod Actions
pub mod Validate
pub mod Authority
pub mod Levels
pub mod Dimensions
pub mod Supplied
pub mod Named
pub mod Contracts
pub mod Accepted
pub mod Refutation
