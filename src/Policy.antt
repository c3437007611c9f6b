-- ===== src/Policy.antt =====
-- policy.py: what source text a model may submit.
pub mod Scrub
pub mod Turns
pub mod Masked
