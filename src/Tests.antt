-- ===== src/Tests.antt =====
-- Concrete runs: each theorem applied to data of the kind that the program meets.
mod Data
mod Jobs
mod Runner
mod Queue
mod Dedupe
mod Pool
mod Start
mod Bot
mod Parts
mod Engine
mod Remote
mod Library
mod Chat
pub mod Cache
