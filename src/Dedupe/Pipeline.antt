-- ===== src/Dedupe/Pipeline.antt =====
-- services/pipeline.py: `TaskPipeline.submit_download`, up to the wait for the result.
use mix_saving_bot.Common.{ℕ, String, Bool, false, Option, none, some, [], ◌∷◌}
use mix_saving_bot.Common.Exec.{ok, raised, Result, ◌>>=◌, ok, Exec, Result}
use mix_saving_bot.Queue.Types.{rejected_duplicate, text, TaskResult, Job}
use mix_saving_bot.Dedupe.Cache.{
  duplicate, reserved, Exn as CacheExn, abort, try_reserve, Reservation, default_dedupe_key,
  JsonLibrary, DownloadCache,
}
use mix_saving_bot.Queue.Manager.{queue_overflow, begin_wait, Exn as QueueExn, Manager}

pub record TaskPipeline : Type 0 where
  pub queue : Manager
  pub cache : Option DownloadCache

pub data Error : Type 0 where
  queue_error : QueueExn → Error
  cache_error : CacheExn → Error

-- the answer to a duplicate, or the future that the caller waits for
pub data Submitted : Type 0 where
  rejected : TaskResult → Submitted
  waits : ℕ → Submitted

-- a fresh job; `id` is its UUID
abbrev pub make_job : String → ℕ → String → String → Job
make_job id now url media = record {
  id = id;
  kind = "download";
  payload = ("url", text url) ∷ ("media", text media) ∷ [];
  created_at = now;
  max_attempts = 3;
  retry_on_failure = false;
}

abbrev pub key_of : JsonLibrary → String → String → String
key_of lib url media = default_dedupe_key lib (some url) none none (some media)

-- a call of the queue or of the cache, on its part of the pipeline
abbrev pub on_queue :
    Result QueueExn ℕ × Manager → TaskPipeline → Result Error Submitted × TaskPipeline
on_queue (ok fut, q) p = (ok (waits fut), record p { queue = q })
on_queue (raised x, q) p = (raised (queue_error x), record p { queue = q })

abbrev pub on_cache :
    Result CacheExn Reservation × DownloadCache
    → TaskPipeline
    → Result Error Reservation × TaskPipeline
on_cache (ok r, c) p = (ok r, record p { cache = some c })
on_cache (raised x, c) p = (raised (cache_error x), record p { cache = some c })

unfoldable pub begin : Job → Exec Error TaskPipeline Submitted
unfolding begin_wait
begin job p = on_queue (begin_wait job p.queue) p

unfoldable pub reserve :
    JsonLibrary → Bool → String → Job → DownloadCache → Exec Error TaskPipeline Reservation
unfolding try_reserve
reserve lib os_error key job c p = on_cache (try_reserve lib os_error key job.id c) p

abbrev pub abort_key : String → Option DownloadCache → Option DownloadCache
abort_key key none = none
abort_key key (some c) = some (abort key c)

-- the `except` clauses: only an overflow gives the reservation back
abbrev pub give_back :
    String → Result Error Submitted × TaskPipeline → Result Error Submitted × TaskPipeline
give_back key (raised (queue_error queue_overflow), p) =
    (raised (queue_error queue_overflow), record p { cache = abort_key key p.cache })
give_back key (r, p) = (r, p)

abbrev pub duplicate_result : String → String → TaskResult
duplicate_result job_id key = record {
  job_id = job_id;
  status = rejected_duplicate;
  message = "This resource was already fetched recently.";
  detail = ("dedupe_key", text key) ∷ ("error_code", text "DUPLICATE") ∷ [];
}

unfoldable pub enter : String → Job → Reservation → Exec Error TaskPipeline Submitted
unfolding begin
enter key job duplicate p = (ok (rejected (duplicate_result job.id key)), p)
enter key job reserved p = give_back key (begin job p)

unfoldable pub submit_download :
    JsonLibrary → Bool → String → ℕ → String → String → Exec Error TaskPipeline Submitted
unfolding reserve enter
submit_download lib os_error id now url media p =
    let job = make_job id now url media in
    elim p.cache [
      | none ↦ give_back "" (begin job p)
      | some c ↦
          let key = key_of lib url media in
          (do r ← reserve lib os_error key job c; enter key job r) p
    ]
