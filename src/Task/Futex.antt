-- ===== src/Task/Futex.antt =====
-- Futexes: common/task/task/src/futex.rs and the call in syscall/futex.rs.
pub mod Queue
pub mod Entries
pub mod Call
pub mod Wake
pub mod Requeue
pub mod Protocol
