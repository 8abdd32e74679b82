-- ===== src/Bot/Submit.antt =====
-- bot/routers/download.py: `enqueue_download_job` up to its wait. The job service and the router
-- share one waiter. The producer's queue is the list of its messages; a notice to the user may raise.
use mix_saving_bot.Common.{
  ℕ, String, Bool, false, Option, none, some, List, [], ◌∷◌, ◌++◌, leb, if◌then◌else◌, ◌==◌,
  string_eq, nat_eq,
}
use mix_saving_bot.Text.{prefix}
use Prim.Native.String.{◌++◌ as ◌+s◌}
use mix_saving_bot.Common.Exec.{Exec, ok, raised, pure, raise, ◌>>=◌, ◌>>◌}
use mix_saving_bot.Bot.Notifier.{or_text}
use mix_saving_bot.Contracts.{SubmitDownloadRequest, ℤ, JobRecord, QueueMessage}
use mix_saving_bot.Jobs.Repository.{Repo}
use mix_saving_bot.Jobs.Service.{submit}
use mix_saving_bot.Jobs.Waiter.{Waiter, subscribe}
use mix_saving_bot.Metrics.{Metrics, inc}
use mix_saving_bot.Sanitize.{
  validate_for_download, canonical_cache_key, UrlLibrary, DownloadConstraints, Verdict, accepted,
  sanitize_error, value_error,
}

pub data Exn : Type 0 where
  url_error send_error queue_closed : Exn

pub record Front : Type 0 where
  pub repo : Repo
  pub waiter : Waiter
  pub metrics : Metrics
  pub notices : List String
  pub messages : List QueueMessage

pub record FrontEnv : Type 0 where
  pub lib : UrlLibrary
  pub constraints : DownloadConstraints
  pub high_water : ℕ
  -- queue_peek.pending_qsize(), where there is a `queue_peek`
  pub pending_qsize : Option ℕ
  -- the digits of a chat id
  pub digits : ℤ → String
  -- whether the last of the notices raises
  pub notice_raises : List String → Bool
  -- MemoryQueueProducer._closed
  pub closed : Bool
  -- time.time(), and the two results of uuid4
  pub now : ℕ
  pub fresh : String
  pub correlation_id : String

pub record Asked : Type 0 where
  pub chat_id : ℤ
  pub user_id : ℤ
  pub reply_to_message_id : ℤ
  pub source_url : String
  pub format_id : Option String

-- bot/formatters.py
abbrev pub fmt_queued : String → String
fmt_queued job_id = "Queued download (job " +s (prefix 8 job_id +s "…). This may take a minute.")

abbrev pub fmt_busy : String
fmt_busy = "The download queue is busy. Please try again in a moment."

abbrev pub fmt_timeout : String
fmt_timeout = "Download timed out. Try again with a shorter clip."

abbrev pub with_code : String → Option String → String
with_code msg none = msg
with_code msg (some code) = if code == "" then msg else msg +s (" [" +s (code +s "]"))

abbrev pub fmt_failed : JobRecord → String
fmt_failed rec = with_code (or_text rec.error_message_safe "Download failed.") rec.error_code

-- if format_id: req["requested_format_id"] = format_id
abbrev pub given : Option String → Option String
given none = none
given (some f) = if f == "" then none else some f

abbrev pub request_of : FrontEnv → Asked → SubmitDownloadRequest
request_of env a = record {
  source_url = a.source_url;
  correlation_id = env.correlation_id;
  chat = record {
    chat_id = a.chat_id;
    user_id = a.user_id;
    locale = none;
    reply_to_message_id = some a.reply_to_message_id;
  };
  requested_format_id = given a.format_id;
}

unfoldable pub key_of : FrontEnv → Asked → String
key_of env a = env.digits a.chat_id +s (":" +s canonical_cache_key env.lib a.source_url a.format_id)

abbrev pub is_busy : FrontEnv → Bool
is_busy env = elim env.pending_qsize [ none ↦ false | some n ↦ leb env.high_water n ]

unfoldable pub send_user_notice : FrontEnv → String → Exec Exn Front (Unit {0})
send_user_notice env notice f =
    let notices = f.notices ++ notice ∷ [] in
    (if env.notice_raises notices then raised send_error else ok tt, record f { notices = notices })

-- jobs.submit
unfoldable pub submit_job : FrontEnv → Asked → Exec Exn Front (JobRecord × Bool)
submit_job env a f =
    let (r, s) =
      submit env.now env.fresh (request_of env a) (some (key_of env a))
        (record { repo = f.repo; waiter = some f.waiter }) in
    (ok r, record f { repo = s.repo })

-- waiter.subscribe
unfoldable pub subscribe_job : JobRecord → Exec Exn Front ℕ
subscribe_job rec f =
    let (fut, w) = subscribe rec.job_id (some rec) f.waiter in (ok fut, record f { waiter = w })

-- producer.enqueue
unfoldable pub produce : FrontEnv → JobRecord → Exec Exn Front (Unit {0})
produce env rec f = if env.closed then (raised queue_closed, f) else (
  ok tt,
  record f {
    messages =
        f.messages
        ++ record {
          job_id = rec.job_id;
          correlation_id = env.correlation_id;
          enqueued_at_unix = env.now;
        }
          ∷ [];
  },
)

-- what follows `jobs.submit`
unfoldable pub follow : FrontEnv → JobRecord × Bool → Exec Exn Front ℕ
unfolding subscribe_job send_user_notice produce
follow env (rec, should_enqueue) = do
  fut ← subscribe_job rec
  send_user_notice env (fmt_queued rec.job_id)
  λ f. (ok tt, record f { metrics = inc "jobs_submitted_total" 1 f.metrics })
  if should_enqueue then produce env rec else pure tt
  pure fut

-- by the verdict on the URL; `none` is an early return
unfoldable pub accept : FrontEnv → Asked → Verdict → Exec Exn Front (Option ℕ)
unfolding submit_job follow send_user_notice
accept env a accepted = do submitted ← submit_job env a; fut ← follow env submitted; pure (some fut)
accept env a (sanitize_error code message) = do send_user_notice env message; pure none
accept env a value_error = raise url_error

unfoldable pub enqueue_download_job : FrontEnv → Asked → Exec Exn Front (Option ℕ)
unfolding accept send_user_notice
enqueue_download_job env a =
    if is_busy env
    then (do send_user_notice env fmt_busy; pure none)
    else accept env a (validate_for_download env.lib a.source_url env.constraints)
