-- ===== src/Library.antt =====
-- services/downloader.py: the synchronous library around yt-dlp, with copies of its own of the checks
-- and the searches of downloader/_sync_engine.py.
pub mod Checks
pub mod Options
pub mod Download
pub mod Copies
pub mod Agreement
pub mod Directories
pub mod Cleanup
