-- ===== src/Drivers/CacheBlk.antt =====
-- The block cache, drivers/cache_blk: pages of blocks of 512 bytes.
pub mod Page
pub mod Flat
pub mod Written
pub mod Laws
