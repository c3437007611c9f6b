-- ===== src/Config.antt =====
-- config.py: the goals of a search as its configuration gives them.
pub mod Names
pub mod Goals
pub mod Ladder
