-- ===== src/MarkBuffer.antt =====
-- The mark buffers, which pass the pointers that a mutator marks to the collector: `mark_buffer`
-- (include/mpgc/mark_buffer.h) over `sesd_queue` (ruts/include/ruts/sesd_queue.h).
pub mod Memory
pub mod Defs
pub mod Chain
pub mod Queue
pub mod Tail
pub mod Clearing
pub mod Buffers
pub mod Contents
pub mod Steps
pub mod Reads
pub mod Emptiness
pub mod History
pub mod Faults
mod Tests
