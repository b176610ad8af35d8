-- ===== src/Vfs/Domain.antt =====
-- The VFS domain, common/vfs/vfs/src/lib.rs: the open files by their ids, the calls of other domains
-- on them, and what is left of them when the domain has crashed and is loaded again.
pub mod Core
pub mod State
pub mod Calls
pub mod Paths
pub mod Special
pub mod Recovery
pub mod Quiet
pub mod QuietCalls
pub mod Sound
pub mod Closing
pub mod Keeps
pub mod Lost
pub mod SpecialKeeps
pub mod Run
pub mod RunLaws
pub mod Sequences
pub mod Recovered
pub mod SpecialLaws
pub mod Sample
mod Tests
