-- ===== src/Maintenance.antt =====
-- The maintenance requests of an agent's memory cycle: the table agent_memory_maintenance and its
-- operations in src/codememory/storage/repository.py (`request_agent_memory_maintenance`,
-- `complete_...`, `fail_...`, `fail_pending_...`, `get_...`, `latest_...`, `..._count`).
-- Times are seconds, as in the outbox. A request says whether the rows that its
-- foreign keys name exist.
mod Table
pub mod Calls
pub mod Evolution
pub mod Budget
pub mod Settled
pub mod Supersede
mod Tests
unfoldable pub use Table.*
