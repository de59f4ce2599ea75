-- ===== src/Threading.antt =====
-- src/threading/scheduler: the pools, groups, queues and locks that decide which task runs next.
pub mod Priority
pub mod Buckets
pub mod Group
pub mod Queue
pub mod Pool
pub mod Scheduler
mod Tests
