-- ===== src/WorkQueue.antt =====
-- The queue of objects to trace: `work_stealing_wq` of include/mpgc/work_stealing_wq.h over the
-- buffers of include/mpgc/mark_buffer.h and the stack of ruts/include/ruts/lock_free_stack.h.
pub mod Defs
pub mod Buffers
pub mod Contents
pub mod Sharing
pub mod History
mod Tests
