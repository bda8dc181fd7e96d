-- ===== src/TaskQueue.antt =====
-- src/distributed/queue-adapter.ts: `MemoryQueueAdapter`, the queue of tasks of one process, with
-- the task record of src/distributed/types.ts and the tenants of src/distributed/tenant.ts.
--
-- A key `tenant\0value` is a pair: a tenant ID that has passed the check has no NUL. The clock's
-- reading and the random lease id are arguments.
pub mod Task
pub mod Queue
pub mod Loop
pub mod Reads
pub mod Urls
pub mod Leases
pub mod Fencing
pub mod Pending
pub mod Once
mod Tests
