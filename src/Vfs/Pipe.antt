-- ===== src/Vfs/Pipe.antt =====
-- Pipes, common/vfs/vfs/src/pipe.rs (common/vfs2 holds the same file): the ring of bytes, the calls
-- on it, and the order of the bytes that pass through.
pub mod Ring
pub mod Inode
pub mod Queue
pub mod Loops
pub mod Order
pub mod Waiting
