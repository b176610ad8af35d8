-- ===== src/Vfs/EventFd.antt =====
-- Event counters, common/vfs/vfs/src/eventfd.rs (common/vfs2 holds the same file).
pub mod Bytes
pub mod Counter
pub mod Laws
pub mod Races
