-- ===== src/Kernel.antt =====
-- kernel.py `run_kernel`: which goals a candidate is accepted for.
pub mod Accepts
pub mod Audited
pub mod Complete
