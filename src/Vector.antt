-- ===== src/Vector.antt =====
-- `gc_basic_vector` of include/mpgc/gc_vector.h, over the arrays of include/mpgc/gc_allocate.h.
pub mod Arrays
pub mod Defs
pub mod Growth
pub mod Moves
pub mod Overlaps
pub mod Pieces
pub mod Represents
pub mod Inserts
pub mod Ends
pub mod History
pub mod Refines
mod Tests
