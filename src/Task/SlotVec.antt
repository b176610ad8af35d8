-- ===== src/Task/SlotVec.antt =====
-- `SlotVec<T>` of common/task/task/src/utils.rs: a vector whose items keep their index.
pub mod Defs
pub mod Count
pub mod Slots
