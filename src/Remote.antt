-- ===== src/Remote.antt =====
-- services/remote_backend.py: `execute_remote_download`, which submits a job to a backend over HTTP
-- and polls it. HTTP, JSON, `urlsplit`, the clock and the files are parameters.
pub mod Http
pub mod Artifact
pub mod Poll
pub mod Polls
pub mod Paths
pub mod Deadline
pub mod Answers
pub mod Results
pub mod Processor
