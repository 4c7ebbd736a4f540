-- ===== src/LocalPool.antt =====
-- The allocation of an object from a thread's own free chunks, or from a global chunk: `alloc` of
-- src/gc_skiplist_allocator.cpp and what it calls.
pub mod Align
pub mod Defs
pub mod Take
pub mod Carve
pub mod Alloc
mod Tests
