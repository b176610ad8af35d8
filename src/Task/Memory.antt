-- ===== src/Task/Memory.antt =====
-- The memory of a task as its domain keeps it: the mapped regions and the heap.
pub mod Regions
pub mod Heap
pub mod Lookup
pub mod Calls
pub mod Mapped
pub mod Changes
