-- ===== src/StartUp.antt =====
-- run_bot.py: `main`, as the list of what it does. How polling, the worker and the `close` calls end is
-- an argument: each returns, raises an exception, or is cancelled.
pub mod Shutdown
use mix_saving_bot.Common.{
  ℕ, String, Option, none, some, List, [], ◌∷◌, ◌++◌, if◌then◌else◌, ◌==◌, string_eq, nat_eq,
}
use mix_saving_bot.Text.{strip, upper}
use mix_saving_bot.Settings.Values.{Settings, memory, redis}

pub data Ending : Type 0 where
  returns raises cancels : Ending

pub data Effect : Type 0 where
  prints : String → Effect
  -- the level by its name
  logs_at : String → Effect
  opens_redis : String → String → String → String → Effect
  opens_memory : ℕ → Effect
  starts_workers : Effect
  polls : Effect
  stops_workers awaits_workers closes_producer closes_consumer closes_session : Effect

pub data Exit : Type 0 where
  exits : ℕ → Exit
  ended : Ending → Exit

pub record Endings : Type 0 where
  pub polling : Ending
  -- however the worker's task ends, that is suppressed
  pub worker : Ending
  pub producer : Ending
  pub consumer : Ending
  pub session : Ending

-- if settings.REDIS_URL: a text that is not empty
abbrev pub url_of : Option String → Option String
url_of none = none
url_of (some s) = if s == "" then none else some s

-- with contextlib.suppress(Exception): a cancellation passes, and the rest is not run
abbrev pub suppressed : Ending → Effect → List Effect × Option Ending → List Effect × Option Ending
suppressed cancels effect rest = (effect ∷ [], some cancels)
suppressed _ effect rest = (effect ∷ rest.0, rest.1)

-- the `finally` block: what it does, and the exception that it ends with, if any
unfoldable pub shut_down : Endings → List Effect × Option Ending
shut_down e =
    let (effects, ending) =
      suppressed e.producer closes_producer
        (suppressed e.consumer closes_consumer (suppressed e.session closes_session ([], none))) in
    (stops_workers ∷ awaits_workers ∷ effects, ending)

-- an exception of the `finally` block replaces that of the polling
abbrev pub outcome : Ending → Option Ending → Ending
outcome polling none = polling
outcome polling (some e) = e

unfoldable pub serve : List Effect → Endings → Exit × List Effect
serve before e =
    let (effects, ending) = shut_down e in
    (ended (outcome e.polling ending), before ++ starts_workers ∷ polls ∷ effects)

-- the queue that the settings name; Redis needs a URL
unfoldable pub open_queue : Settings → Option Effect
open_queue s = elim s.queue_backend [
  | memory ↦ some (opens_memory 512)
  | redis ↦ elim (url_of s.redis_url) [
    | none ↦ none
    | some url ↦
        some
          (opens_redis url s.redis_queue_stream_key s.redis_queue_group s.redis_queue_consumer_name)
  ]
]

unfoldable pub main : Settings → Endings → Exit × List Effect
unfolding serve
main s e =
    if strip s.bot_token == ""
    then (exits 1, prints "Set MIX_BOT_TOKEN to your Telegram bot token." ∷ [])
    else elim (open_queue s) [
      | none ↦ (
        exits 1,
        logs_at (upper s.log_level)
            ∷ prints "MIX_REDIS_URL is required when MIX_QUEUE_BACKEND=redis."
            ∷ [],
      )
      | some queue ↦ serve (logs_at (upper s.log_level) ∷ queue ∷ []) e
    ]
