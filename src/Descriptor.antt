-- ===== src/Descriptor.antt =====
-- Object descriptors: include/mpgc/gc_desc.h and src/gc_desc.cpp, over the bit fields of
-- ruts/include/ruts/bit_field.h.
pub mod Field
pub mod FieldBits
pub mod Defs
pub mod Collector
pub mod Sorting
pub mod Lists
pub mod ListRep
pub mod Bitmaps
pub mod Outcomes
pub mod Correct
pub mod Header
mod Tests
