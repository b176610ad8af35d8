-- ===== src/Task/Process.antt =====
-- The processes of the task domain: their groups and sessions, their parents and children, and how
-- they begin and end.
pub mod State
pub mod Groups
pub mod Sessions
pub mod Targets
pub mod GroupLaws
pub mod Clone
pub mod Exit
pub mod Wait
pub mod WaitLaws
pub mod Reaping
pub mod Family
pub mod Handover
pub mod ExitLaws
pub mod CloneLaws
