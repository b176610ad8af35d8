-- ===== src/Drivers.antt =====
-- Drivers, drivers/: each is a domain of its own.
pub mod CacheBlk
mod Tests
