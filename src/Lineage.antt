-- ===== src/Lineage.antt =====
-- lineage.py: the path of parents behind the best program of a run.
pub mod Path
pub mod Ends
