-- ===== src/Tasks.antt =====
-- app/storage/repositories/task_repo.py and app/workers: the tasks from their submission to their
-- result.
pub mod Repository
pub mod Queue
pub mod Manager
pub mod Lifecycle
pub mod Invariant
pub mod Steps
pub mod Recovery
pub mod Reachable
pub mod Drain
pub mod Database
pub mod TaskRows
pub mod Modes
pub mod Audit
mod Tests
mod StorageTests
