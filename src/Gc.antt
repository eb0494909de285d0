-- ===== src/Gc.antt =====
-- The allocator of src/gc.c: pools of 64 slots, each with a bit map of the slots in use.
pub mod Word
pub mod Pool
pub mod Types
pub mod Sweep
pub mod Alloc
pub mod Memory
mod Tests
