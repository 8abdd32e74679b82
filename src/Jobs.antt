-- ===== src/Jobs.antt =====
-- services/jobs: the repository of job records, the service over it, and the waiter that tells
-- chat handlers of a finished job.
pub mod Repository
pub mod Waiter
pub mod Service
pub mod Dedupe
pub mod Futures
pub mod Marks
pub mod Waiting
pub mod Listing
