-- ===== src/Handshake.antt =====
-- The signals by which a collector thread tells the mutators its phase (src/gc_handshake.cpp,
-- include/mpgc/gc_handshake.h), and the write barrier that puts them off.
pub mod Defs
pub mod Deferral
pub mod Rounds
pub mod Scan
pub mod Barrier
mod Tests
