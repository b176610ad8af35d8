-- ===== src/Sched.antt =====
-- The schedulers: common_lib/common_scheduler and the two domains common/fifo_scheduler and
-- common/random_scheduler behind its interface.
pub mod Info
pub mod Interface
pub mod Fifo
pub mod Random
pub mod Global
mod Tests
