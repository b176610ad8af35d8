-- ===== src/Vfs/File.antt =====
-- Files over an inode: common/vfs/vfs/src/kfile.rs.
pub mod Calls
pub mod Laws
