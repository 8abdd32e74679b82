-- ===== src/Bot.antt =====
-- bot/middleware/rate_limit.py, bot/pending_choice.py, bot/notifier.py, bot/routers/download.py: what
-- stands between a chat and the download service.
pub mod RateLimit
pub mod Window
pub mod Deques
pub mod Notifier
pub mod Notices
pub mod Submit
pub mod Links
pub mod Commands
pub mod Chosen
pub mod App
pub mod Entry
pub mod PendingChoice
pub mod Tokens
