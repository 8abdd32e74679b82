-- ===== src/Lib.antt =====
-- Mix-Saving-Bot: a Telegram bot that downloads media for its users.
--
-- A chat message goes through the rate limit (bot/middleware/rate_limit.py) and, with a choice kept
-- under a token (bot/pending_choice.py), becomes a job of the job service (services/jobs). A worker
-- (services/worker_runner.py) takes the message of the job from a queue, checks the URL
-- (downloader/sanitize.py), asks the file cache, downloads, and marks the job; the waiter of
-- terminal records (services/jobs/terminal_waiter.py) wakes the handlers that wait for it. Beside
-- this stands a second path: the pipeline (services/pipeline.py) reserves a key in the download
-- cache (services/dedupe_cache.py), puts a job into the bounded queue (services/queue_manager.py),
-- and a worker (services/worker.py) drains it, with the library around yt-dlp
-- (services/downloader.py) or a backend over HTTP (services/remote_backend.py).
--
-- Which file models which part:
--   Common      lists (Common/Lists, Common/All), Python's `dict`, and the state and exception monad
--               of the models with the triples in which its invariants are proved (Common/Exec)
--   Contracts   core/contracts/types.py: `JobRecord`, `QueueMessage`, `CacheEntryDict` and others
--   Text        `str.strip`, `str.lower`, `str.join` as the program uses them
--   Metrics     core/observability.py: `Metrics.inc`, `Metrics.observe_duration_sec`
--   Sanitize    downloader/sanitize.py: `validate_for_download`, `canonical_cache_key`
--   Jobs        services/jobs: `InMemoryJobRepository` (Jobs/Repository), `JobServiceImpl`
--               (Jobs/Service), `JobTerminalWaiter` (Jobs/Waiter)
--   Runner      services/worker_runner.py: `handle` and `wrapped` (Runner/Handle) on the state of
--               Runner/World; `MemoryQueueConsumer.subscribe` (Runner/Consumer), `run_worker_loop`
--               over it (Runner/Loop), services/queue/redis_queue.py (Runner/Redis). The worker's
--               cache is an interface; what the worker relies on is `Remembers` (Runner/Saved)
--   Queue       services/queue_manager.py: `JobQueueManager` (Queue/Manager), services/worker.py:
--               a round of `Worker.run` (Queue/Worker), services/types.py (Queue/Types)
--   Pool        the pipeline, the queue, the download cache and the workers as one system of steps
--               (Pool/System); services/worker.py: `WorkerPool` (Pool/Lifecycle); the smoke test
--               services/__main__.py (Pool/Smoke)
--   Dedupe      services/dedupe_cache.py: `DownloadCache` (Dedupe/Cache), services/pipeline.py:
--               `TaskPipeline.submit_download` (Dedupe/Pipeline), services/remote_backend.py: the
--               processor of `build_download_processor` (Dedupe/Processor)
--   Bot         bot/middleware/rate_limit.py: `RateLimitMiddleware` (Bot/RateLimit),
--               bot/pending_choice.py: `PendingChoiceStore` (Bot/PendingChoice), bot/notifier.py:
--               `TelegramNotifier.notify_job_update` (Bot/Notifier), bot/routers/download.py:
--               `enqueue_download_job` up to its wait (Bot/Submit), the handlers (Bot/Commands) and
--               the texts that they read (Bot/Links); bot/app.py: the dispatcher with its
--               middlewares (Bot/App)
--   Engine      downloader/_sync_engine.py (Engine/Errors, Engine/Options, Engine/Output,
--               Engine/Progress, Engine/Download) and downloader/yt_dlp_downloader.py (Engine/Facade)
--   Remote      services/remote_backend.py: `execute_remote_download` (Remote/Poll) over the requests
--               of Remote/Http, `_save_remote_file` and the results (Remote/Artifact)
--   Library     services/downloader.py: `download_video`, `download_audio` (Library/Download),
--               `cleanup_work_dir` (Library/Cleanup)
--   Storage     services/cache/file_cache.py: `FileCacheStore` (Storage/FileCache), as the cache that
--               the worker takes (Storage/Store)
--   Settings    core/settings.py: `parse_allowed_hosts` (Settings), `Settings` with its defaults and
--               validators (Settings/Values)
--   Logging     core/logging_setup.py: `JsonFormatter.format`, `setup_json_logging`;
--               services/logging_config.py and bot/middleware/logging_mw.py
--   StartUp     run_bot.py: `main`, as the list of its effects
--   Tests       concrete runs
--
-- A state is a record, an operation a function from state to state, or an action that returns or
-- raises and keeps what was written before. Operations under one `asyncio.Lock` are one step, and
-- an interleaving is a list of steps (`Op`, `run`) or a step relation (`Reach`). The futures of the
-- event loop are a list, and a future is its place in it. A clock reading is a natural number of
-- ticks; differences stop at 0. `float` arithmetic is not modelled.
--
-- Bounds and fuel: the retry loop of the worker runs on the number of retries that are left, 1 at
-- the start, as `transient_attempted` allows one; the polling loop of the remote backend runs on
-- the number of its rounds, and enough of them end it (Remote.Deadline); all other loops are
-- structural on the list they visit.
--
-- Parameters: `urlparse`, SHA-256, JSON, the clocks, the downloader, the notifier, the cache of the
-- worker, `tempfile.mkdtemp`, yt-dlp's `extract_info`, and what the engine asks of the file system,
-- HTTP with its replies; each is an arbitrary function of the calls made so far, or a record of
-- functions, and may fail where the program expects it.
--
-- Not modelled: the cancellation of tasks within `handle`, the stop event of `run_worker_loop`,
-- which lines are logged, the URL and the cause that an error of yt-dlp carries, the semaphore (a
-- consumer handles one message at a time), letters beyond ASCII in `str.lower`, connecting to Redis,
-- closing it and the creation of the consumer group, the snapshot and the singleton of the metrics,
-- the texts of /start and /help, the construction of the aiogram objects, Telegram's and yt-dlp's
-- libraries, and the package files that only pass names on.
pub mod Common
pub mod Contracts
pub mod Text
pub mod Metrics
pub mod Sanitize
pub mod Jobs
pub mod Runner
pub mod Queue
pub mod Dedupe
pub mod Pool
pub mod Logging
pub mod StartUp
pub mod Bot
pub mod Engine
pub mod Library
pub mod Remote
pub mod Storage
pub mod Settings
pub mod Tests
