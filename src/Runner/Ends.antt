-- ===== src/Runner/Ends.antt =====
-- services/worker_runner.py: the record of the job, and those of the others, after a message.
use mix_saving_bot.Common.{
  ℕ, String, ◌≡◌, refl, inl, inr, false, Option, none, some, [], ◌∷◌, Option-cases, string_eq,
  nat_eq,
}
use mix_saving_bot.Jobs.Marks.{Holds}
use mix_saving_bot.Common.Exec.{
  post_returned, Post-ok, post_state, Exec, Result, ok, raised, finally, Post, Triple, Triple-bind,
}
use mix_saving_bot.Contracts.{
  JobRecord, CacheEntry, QueueMessage, SubmitDownloadRequest, is_terminal,
}
use mix_saving_bot.Jobs.Repository.{Repo}
use mix_saving_bot.Jobs.Service.{get_job, mark_running}
use mix_saving_bot.Sanitize.{Verdict, accepted, sanitize_error, value_error}
use mix_saving_bot.Runner.World.{Exn, CacheStore, Env, World, inc_metric, on_service}
use mix_saving_bot.Runner.Handle.{
  count_hit, output_of, context, fetch, complete, clean_up, make_dir, read_monotonic, download_job,
  serve, get_cache, admit, handle_row, handle, recover, wrapped,
}
use mix_saving_bot.Runner.Steps.{
  Ended, During, After, Heard, Told, Fetched, running-Tracks, fail-Heard, complete-Heard, weaker,
  deliver-Heard, fetch-Fetched,
}

module _ {c : CacheStore} (env : Env) (job : String) (start : Repo) where
  -- the job is finished if the action returns, and still has its record if it raises
  abbrev Finishes : Exec Exn (World c) (Unit {0}) → Type 0
  Finishes m = Triple (During env job start) m (λ _. Heard env job start) (During env job start)

  make_dir-During :
      Triple
        (During {c = c} env job start)
        (make_dir env job)
        (λ _. During env job start)
        (During env job start)
  unfolding make_dir
  make_dir-During = record {
    at = λ w t. elim (Option-cases (env.temp_work_dir job)) [
      | inl e ↦ rw (e, make_dir) t
      | inr (d, e) ↦ rw (e, make_dir) t
    ];
  }

  finally-Finishes :
      (m : Exec Exn (World c) (Unit {0})) (t0 : ℕ) (dir : String)
      → Finishes m
      → Finishes (finally m (clean_up env t0 dir))
  unfolding clean_up
  finally-Finishes m t0 dir h = record { at = λ w t. keep (m w) (h.at w t) }
    where
      keep :
          (r : Result Exn (Unit {0}) × World c)
          → Post (λ _. Heard env job start) (During env job start) r
          → Post (λ _. Heard env job start) (During env job start) (r.0, clean_up env t0 dir r.1)
      keep (ok u, w) h = h
      keep (raised x, w) h = h

  download_job-Finishes :
      (key : String) (req : SubmitDownloadRequest) → Finishes (download_job env job key req)
  unfolding download_job read_monotonic
  download_job-Finishes key req =
      Triple-bind (λ _. During env job start) (make_dir env job) _ make_dir-During
        (λ dir.
          Triple-bind (λ _. During env job start) (read_monotonic env) _ (record { at = λ w t. t })
            (λ t0. finally-Finishes _ t0 dir (
              Triple-bind (Fetched env job start) (fetch env 1 (context env job req dir)) _
                (fetch-Fetched env start 1 (context env job req dir))
                (λ o. deliver-Heard env job start key o))))

  running-During :
      Triple
        (During {c = c} env job start)
        (on_service env (λ now s. mark_running now job s))
        (λ _. During env job start)
        (During env job start)
  running-During = record { at = λ w t. running-Tracks job start w.service t (env.time w.readings) }

  serve-Finishes :
      (key : String) (req : SubmitDownloadRequest) (o : Option CacheEntry)
      → Finishes (serve env job key req o)
  unfolding serve inc_metric
  serve-Finishes key req (some cached) =
      Triple-bind (λ _. During env job start) (on_service env (λ now s. mark_running now job s)) _
        running-During
        (λ _.
          Triple-bind (λ _. Heard env job start) (complete env job (output_of cached none ∷ []))
            (λ _. count_hit) (weaker env job start _ (complete-Heard env job start _))
            (λ _. record { at = λ w e. e }))
  serve-Finishes key req none =
      Triple-bind (λ _. During env job start) (inc_metric "cache_miss_total") _
        (record { at = λ w t. t })
        (λ _.
          Triple-bind (λ _. During env job start) (on_service env (λ now s. mark_running now job s))
            _ running-During (λ _. download_job-Finishes key req))

  get_cache-During :
      (key : String)
      → Triple
          (During {c = c} env job start)
          (get_cache env key)
          (λ _. During env job start)
          (During env job start)
  unfolding get_cache
  get_cache-During key = record { at = λ w t. keep w t (CacheStore.get c key w.cache) }
    where
      keep :
          (w : World c)
          → During env job start w
          → (r : Result Exn (Option CacheEntry))
          → Post (λ _. During env job start) (During env job start) (r, w)
      keep w t (ok o) = t
      keep w t (raised x) = t

  admit-Finishes : (req : SubmitDownloadRequest) (v : Verdict) → Finishes (admit env job req v)
  unfolding admit
  admit-Finishes req (sanitize_error code message) =
      weaker env job start _ (fail-Heard env job start _ _)
  admit-Finishes req value_error = record { at = λ w t. t }
  admit-Finishes req accepted =
      Triple-bind (λ _. During env job start) (get_cache env _) _ (get_cache-During _)
        (λ o. serve-Finishes _ req o)

  handle_row-Finishes :
      (rec : JobRecord) → is_terminal rec.status ≡ false → Finishes (handle_row env job (some rec))
  unfolding handle_row
  handle_row-Finishes rec live = rw live (admit-Finishes rec.request _)

  recover-After :
      (r : Result Exn (Unit {0}) × World c)
      → Post (λ _. Heard env job start) (During env job start) r
      → Post (λ _. Heard env job start) (After env job start) (recover env job r)
  unfolding recover
  recover-After (ok u, w) h = h
  recover-After (raised x, w) h = (fail-Heard env job start _ _).at w h

wrapped_lem :
    {c : CacheStore} (env : Env) (msg : QueueMessage) (w : World c) (rec : JobRecord)
    → Holds msg.job_id w.service rec
    → is_terminal rec.status ≡ false
    → Post
        (λ _. Heard env msg.job_id w.service.repo)
        (After env msg.job_id w.service.repo)
        (wrapped env msg w)
unfolding wrapped handle get_job
wrapped_lem env msg w rec h live = recover-After env msg.job_id w.service.repo _ (
    rw h.found (
      (handle_row-Finishes env msg.job_id w.service.repo rec live).at w
        (record { rec = rec; holds = h; rest = λ k n. refl })))

-- Whatever the downloader, the cache, the clock and the notifier do, a message for a job that is
-- stored under its own id and is not finished leaves that job finished (succeeded, failed or
-- canceled), also if the notifier raises, and the records of all other jobs as they were.
pub wrapped-Ended :
    {c : CacheStore} (env : Env) (msg : QueueMessage) (w : World c) (rec : JobRecord)
    → Holds msg.job_id w.service rec
    → is_terminal rec.status ≡ false
    → Ended msg.job_id w.service.repo (wrapped env msg w).1.service
wrapped-Ended {c} env msg w rec h live =
    let start = w.service.repo in
    let done' = After {c = c} env msg.job_id start in
    post_state done' (wrapped env msg w) (
      Post-ok (Heard env msg.job_id start) done' done' (λ v t. t.finished) (wrapped env msg w)
        (wrapped_lem env msg w rec h live))

-- If handling such a message returns without an exception, the last notification was the job's
-- finished record, and the notifier took it.
pub wrapped-Told :
    {c : CacheStore} (env : Env) (msg : QueueMessage) (w : World c) (rec : JobRecord)
    → Holds msg.job_id w.service rec
    → is_terminal rec.status ≡ false
    → (wrapped env msg w).0 ≡ ok tt
    → Told env msg.job_id w.service.repo (wrapped env msg w).1.service (wrapped env msg w).1.sent
wrapped-Told env msg w rec h live returned =
    post_returned (Heard env msg.job_id w.service.repo) (After env msg.job_id w.service.repo)
      (wrapped env msg w) returned (wrapped_lem env msg w rec h live)
