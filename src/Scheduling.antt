-- ===== src/Scheduling.antt =====
-- irob_scheduling.h and irob_scheduling.cpp: tasks of the sending threads, ordered sets of them, and
-- the six sets of one level. The names `level` and `type`, for debug output only, are left out.
pub mod Task
pub mod PrioritySet
pub mod Indexes
pub mod Order
pub mod Sets
mod Tests
