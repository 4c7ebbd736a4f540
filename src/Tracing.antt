-- ===== src/Tracing.antt =====
-- Tracing: `mark_black` and `empty_collector_stack` of src/gc_thread.cpp, with the map of
-- contingent pointers of include/mpgc/weak_ctrl_map.h.
pub mod Graph
pub mod CtrlMap
pub mod Marks
pub mod Collector
mod Tests
pub mod Visit
pub mod Bitmap
pub mod Black
pub mod Sound
pub mod Correct
pub mod Ends
