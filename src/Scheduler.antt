-- ===== src/Scheduler.antt =====
-- server/scheduler: the periodic jobs. `Offline`, `Timeout` and `Partitions` are the three jobs.
pub mod Offline
pub mod Timeout
pub mod Partitions
