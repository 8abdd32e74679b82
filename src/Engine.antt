-- ===== src/Engine.antt =====
-- downloader/_sync_engine.py and downloader/yt_dlp_downloader.py: the engine around yt-dlp, and the
-- façade that the worker calls.
pub mod Files
pub mod Errors
pub mod Options
pub mod Output
pub mod Progress
pub mod Download
pub mod Found
pub mod Facade
pub mod Handed
pub mod Probe
pub mod Worker
