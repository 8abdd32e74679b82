-- ===== src/Dedupe.antt =====
-- services/dedupe_cache.py and services/pipeline.py: the reservations that keep two workers from
-- downloading one resource, and the entry that takes them.
pub mod Cache
pub mod Exclusion
pub mod Reservations
pub mod Pipeline
pub mod Entry
pub mod Processor
