-- ===== src/MarkBitmap.antt =====
-- `mark_bitmap` of include/mpgc/gc_thread.h.
pub mod Word
pub mod Zeros
pub mod Defs
pub mod Array
pub mod Marking
pub mod Scan
mod Tests
