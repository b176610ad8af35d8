-- ===== src/Generic.antt =====
-- The file-system domains, common_lib/generic: each serves the dentries of one file system to the
-- other domains under numbers, the inode ids.
pub mod Core
pub mod State
pub mod Tree
pub mod Inodes
pub mod Mount
pub mod Keeps
pub mod TreeLaws
pub mod InodeLaws
pub mod Run
pub mod MountLaws
pub mod RunLaws
pub mod Sequences
pub mod Issued
mod Tests
