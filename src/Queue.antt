-- ===== src/Queue.antt =====
-- services/types.py, services/queue_manager.py and services/worker.py: the bounded job queue with
-- its waiters, and the worker that drains it.
pub mod Types
pub mod Manager
pub mod Worker
pub mod Bounds
pub mod Retries
pub mod Exhaustion
pub mod Fifo
pub mod Order
pub mod Counts
pub mod Accounts
pub mod Tasks
