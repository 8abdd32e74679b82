-- ===== src/Runner.antt =====
-- services/worker_runner.py: the worker that takes a queue message to a finished job.
pub mod World
pub mod Handle
pub mod Steps
pub mod Ends
pub mod Limits
pub mod Costs
pub mod Outcomes
pub mod Hits
pub mod Consumer
pub mod Redis
pub mod Saved
pub mod Succeeds
pub mod Kept
pub mod Again
pub mod Loop
pub mod Acknowledged
