-- ===== src/Jobs.antt =====
-- The job queue of src/nunspark/webapp/jobs.py, class JobManager: which jobs may share a batch, the
-- turns of the worker, and the order of what it runs.
pub mod Key
pub mod Worker
pub mod Groups
pub mod Fifo
pub mod Batches
pub mod Progress
pub mod Tests
