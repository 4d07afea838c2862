-- ===== src/Batch.antt =====
-- pkg/batch/executor.go: jobs that send a command to many clients.
pub mod Task
pub mod Job
mod Examples
