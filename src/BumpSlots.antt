-- ===== src/BumpSlots.antt =====
-- The free list of slots for unfinished bump allocations: include/mpgc/bump_allocation_slots.h.
pub mod Defs
pub mod FreeList
pub mod Reuse
mod Tests
