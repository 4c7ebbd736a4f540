-- ===== src/Strings.antt =====
-- `gc_basic_string` of include/mpgc/gc_string.h, which keeps its characters and a null in a vector.
pub mod Defs
pub mod Holds
pub mod Edit
pub mod Splice
pub mod History
pub mod Refines
pub mod Search
pub mod Loops
pub mod Find
pub mod Faults
mod Tests
