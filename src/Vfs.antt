-- ===== src/Vfs.antt =====
-- The file layer, common/vfs/vfs: pipes, event counters, interest lists, kernel files.
pub mod Flags
pub mod Pipe
pub mod EventFd
pub mod File
pub mod Domain
pub mod Second
mod Tests
mod CounterTests
mod FileTests
