-- ===== src/Scheduler.antt =====
-- scheduler: background tasks (repair, balance, disk drop) and the queues that hand them to workers.
pub mod Queue
pub mod Task
pub mod TaskQueue
pub mod WorkerQueue
pub mod MigrateTask
pub mod Migrate
pub mod Locker
