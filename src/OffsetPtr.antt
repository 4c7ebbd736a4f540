-- ===== src/OffsetPtr.antt =====
-- The word that stands for a pointer into the heap: `base_offset_ptr` of include/mpgc/offset_ptr.h.
pub mod Defs
pub mod Parts
pub mod Values
pub mod Pointers
pub mod Special
pub mod Scanned
mod Tests
