-- ===== src/Syscall.antt =====
-- System calls on files, common/syscall/syscall/src/fs: clients of the task domain, which holds the
-- descriptors and the memory of the user, and of the VFS domain.
pub mod Domains
pub mod Paths
pub mod Links
pub mod Data
pub mod Control
pub mod Select
pub mod Sendfile
pub mod Amounts
pub mod Balance
pub mod Steps
pub mod Opening
pub mod Balanced
pub mod Instance
pub mod Waiting
pub mod Unsupported
pub mod Enough
mod Tests
