-- ===== src/Runner/Handle.antt =====
-- services/worker_runner.py: `handle` and `wrapped` inside `run_worker_loop`. The semaphore admits
-- the one job that a consumer handles at a time, and cancellation is not modelled.
use mix_saving_bot.Common.{
  ℕ, zero, suc, ◌-◌, String, Option, none, some, List, [], ◌∷◌, ◌++◌, if◌then◌else◌, ◌==◌,
  string_eq, nat_eq,
}
use mix_saving_bot.Common.Exec.{Exec, Result, ok, raised, pure, raise, finally, ◌>>=◌, ◌>>◌}
use mix_saving_bot.Contracts.{
  JobRecord, JobOutputRef, CacheEntry, QueueMessage, SubmitDownloadRequest, OutputKind, is_terminal,
}
use mix_saving_bot.Jobs.Service.{get_job, mark_failed, mark_running, mark_succeeded}
use mix_saving_bot.Metrics.{observe_duration_sec}
use mix_saving_bot.Sanitize.{
  Verdict, accepted, sanitize_error, value_error, validate_for_download, canonical_cache_key,
}
use mix_saving_bot.Runner.World.{
  Exn, os_error, assertion_error, downloader_error, CacheStore, Item, DownloadJobContext, Outcome,
  items, timed_out, transient, fatal, crashed, Env, World, inc_metric, notify_row, notify_job,
  on_service,
}
use mix_saving_bot.Runner.World

abbrev pub output_of : CacheEntry → Option String → JobOutputRef
output_of entry mime_type = record {
  kind = OutputKind.local_path;
  value = entry.local_path;
  mime_type = mime_type;
  byte_size = some entry.byte_size;
}

-- if mime_type: outputs[0]["mime_type"] = mime_type
abbrev pub known_mime : Option String → Option String
known_mime none = none
known_mime (some m) = if m == "" then none else some m

abbrev pub without_dir : String → List String → List String
without_dir d [] = []
without_dir d (e ∷ es) = if e == d then es else e ∷ without_dir d es

abbrev pub context : Env → String → SubmitDownloadRequest → String → DownloadJobContext
context env job_id req work_dir = record {
  job_id = job_id;
  source_url = req.source_url;
  constraints = env.constraints;
  requested_format_id = req.requested_format_id;
  work_dir = work_dir;
}

-- the two counters of a cache hit
unfoldable pub count_hit : {c : CacheStore} → Exec Exn (World c) (Unit {0})
unfolding inc_metric
count_hit = inc_metric "cache_hit_total" >> inc_metric "jobs_completed_total"

module _ {c : CacheStore} (env : Env) where
  -- jobs.mark_failed, then the notification
  unfoldable pub fail : String → String → String → Exec Exn (World c) (Unit {0})
  unfolding notify_job
  fail job_id code message = do
    on_service env (λ now s. mark_failed now job_id code message s)
    notify_job env job_id

  -- downloader.download(ctx, on_progress), under wait_for
  unfoldable pub call_download : DownloadJobContext → Exec Exn (World c) Outcome
  call_download ctx w =
      let calls = w.calls ++ ctx ∷ [] in (ok (env.download calls), record w { calls = calls })

  -- the branches of the `try` in the retry loop; `none` is the early `return` of `handle`
  unfoldable pub settle :
      String
      → Exec Exn (World c) (Option (List Item))
      → Outcome
      → Exec Exn (World c) (Option (List Item))
  unfolding fail
  settle job_id again (items l) = pure (some l)
  settle job_id again timed_out = do
    fail job_id "TIMEOUT" "Download took too long. Try again later."
    pure none
  settle job_id again transient = again
  settle job_id again (fatal message) = do fail job_id "UNSUPPORTED" message; pure none
  settle job_id again crashed = raise downloader_error

  unfoldable pub give_up : String → Exec Exn (World c) (Option (List Item))
  unfolding fail
  give_up job_id = do
    fail job_id "DOWNLOADER_ERROR" "Temporary error while downloading. Try again."
    pure none

  -- the `while True` loop; the number is 1 until `transient_attempted` is set, and 0 after
  unfoldable pub fetch : ℕ → DownloadJobContext → Exec Exn (World c) (Option (List Item))
  unfolding call_download settle give_up
  fetch zero ctx = do out ← call_download ctx; settle ctx.job_id (give_up ctx.job_id) out
  fetch (suc retries) ctx = do out ← call_download ctx; settle ctx.job_id (fetch retries ctx) out

  unfoldable pub complete : String → List JobOutputRef → Exec Exn (World c) (Unit {0})
  unfolding notify_job
  complete job_id outputs = do
    on_service env (λ now s. mark_succeeded now job_id outputs s)
    notify_job env job_id

  unfoldable pub put_cache : String → String → Exec Exn (World c) CacheEntry
  put_cache key path w =
      let (r, s) = CacheStore.put_from_path c key path w.cache in (r, record w { cache = s })

  -- what follows the loop: `none` has returned, and the `assert` wants an item
  unfoldable pub deliver : String → String → Option (List Item) → Exec Exn (World c) (Unit {0})
  unfolding put_cache complete inc_metric
  deliver job_id key none = pure tt
  deliver job_id key (some []) = raise assertion_error
  deliver job_id key (some (primary ∷ _)) = do
    entry ← put_cache key primary.local_path
    complete job_id (output_of entry (known_mime primary.mime_type) ∷ [])
    inc_metric "jobs_completed_total"

  -- the `finally` block
  unfoldable pub clean_up : ℕ → String → World c → World c
  clean_up t0 work_dir w = record w {
    metrics =
        observe_duration_sec "download_duration_seconds" (env.monotonic w.readings - t0) w.metrics;
    work_dirs = if env.rmtree_fails work_dir then w.work_dirs else without_dir work_dir w.work_dirs;
    readings = suc w.readings;
  }

  unfoldable pub make_dir : String → Exec Exn (World c) String
  make_dir job_id w = elim (env.temp_work_dir job_id) [
    | none ↦ (raised os_error, w)
    | some d ↦ (ok d, record w { work_dirs = d ∷ w.work_dirs })
  ]

  unfoldable pub read_monotonic : Exec Exn (World c) ℕ
  read_monotonic w = (ok (env.monotonic w.readings), record w { readings = suc w.readings })

  -- from `work_dir = temp_work_dir(job_id)` to the end
  unfoldable pub download_job :
      String → String → SubmitDownloadRequest → Exec Exn (World c) (Unit {0})
  unfolding make_dir read_monotonic fetch deliver clean_up
  download_job job_id key req = do
    work_dir ← make_dir job_id
    t0 ← read_monotonic
    finally (do fetched ← fetch 1 (context env job_id req work_dir); deliver job_id key fetched)
        (clean_up t0 work_dir)

  -- after `cached = await cache.get(cache_key)`
  unfoldable pub serve :
      String → String → SubmitDownloadRequest → Option CacheEntry → Exec Exn (World c) (Unit {0})
  unfolding complete download_job inc_metric count_hit
  serve job_id key req (some cached) = do
    on_service env (λ now s. mark_running now job_id s)
    complete job_id (output_of cached none ∷ [])
    count_hit
  serve job_id key req none = do
    inc_metric "cache_miss_total"
    on_service env (λ now s. mark_running now job_id s)
    download_job job_id key req

  unfoldable pub get_cache : String → Exec Exn (World c) (Option CacheEntry)
  get_cache key w = (CacheStore.get c key w.cache, w)

  -- the verdict of `validate_for_download`
  unfoldable pub admit : String → SubmitDownloadRequest → Verdict → Exec Exn (World c) (Unit {0})
  unfolding fail get_cache serve
  admit job_id req (sanitize_error code message) = fail job_id "UNSUPPORTED" message
  admit job_id req value_error = raise World.value_error
  admit job_id req accepted = do
    let key = canonical_cache_key env.lib req.source_url req.requested_format_id
    cached ← get_cache key
    serve job_id key req cached

  unfoldable pub handle_row : String → Option JobRecord → Exec Exn (World c) (Unit {0})
  unfolding admit
  handle_row job_id none = pure tt
  handle_row job_id (some rec) =
      if is_terminal rec.status
      then pure tt
      else admit job_id rec.request
          (validate_for_download env.lib rec.request.source_url env.constraints)

  unfoldable pub handle : QueueMessage → Exec Exn (World c) (Unit {0})
  unfolding handle_row
  handle msg w = handle_row msg.job_id (get_job msg.job_id w.service) w

  -- `except Exception` of `wrapped`
  unfoldable pub recover :
      String → Result Exn (Unit {0}) × World c → Result Exn (Unit {0}) × World c
  unfolding fail
  recover job_id (ok u, w) = (ok u, w)
  recover job_id (raised x, w) = fail job_id "INTERNAL" "An internal error occurred." w

  unfoldable pub wrapped : QueueMessage → Exec Exn (World c) (Unit {0})
  unfolding handle recover
  wrapped msg w = recover msg.job_id (handle msg w)
