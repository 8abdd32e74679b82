-- ===== src/Pool.antt =====
-- services/worker.py, services/pipeline.py and services/__main__.py: the queue, the reservations and
-- the workers of a pool as one system.
pub mod System
pub mod Entry
pub mod Guard
pub mod Steps
pub mod Exclusion
pub mod Later
pub mod Origin
pub mod Leaks
pub mod Tidy
pub mod Smoke
pub mod Lifecycle
pub mod Recovery
pub mod Stopping
pub mod Starting
