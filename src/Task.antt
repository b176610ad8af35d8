-- ===== src/Task.antt =====
-- The task domain, common/task/task: file descriptors, futexes, memory regions, processes.
pub mod SlotVec
pub mod Fd
pub mod Futex
pub mod Memory
pub mod Process
mod Tests
mod MemoryTests
mod ProcessTests
mod WaitTests
