-- ===== src/Schedule.antt =====
-- workflow/schedule.py: the ordered epochs of a campaign, read from one argument.
pub mod Texts
pub mod Parse
pub mod Bounded
