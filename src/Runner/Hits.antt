-- ===== src/Runner/Hits.antt =====
-- services/worker_runner.py: a job that is served from the cache.
use mix_saving_bot.Common.Dict.{get}
use mix_saving_bot.Runner.Outcomes.{service-notify_row}
use mix_saving_bot.Common.{
  ℕ, suc, String, ◌≡◌, refl, ap, inl, inr, false, none, some, List, [], ◌∷◌, ◌++◌, arith, eq_iff,
  if◌then◌else◌, Bool-cases, string_eq, nat_eq,
}
use mix_saving_bot.Common.Exec.{then_do, ok, raised}
use mix_saving_bot.Contracts.{
  QueueMessage, SubmitDownloadRequest, JobRecord, JobOutputRef, CacheEntry, is_terminal,
}
use mix_saving_bot.Jobs.Marks.{get-mark_failed, get-mark_running, Holds, get-mark_succeeded}
use mix_saving_bot.Jobs.Service.{
  mark_failed, as_failed, mark_running, JobService, get_job, mark_succeeded, as_running,
  as_succeeded,
}
use mix_saving_bot.Sanitize.{accepted, validate_for_download, canonical_cache_key}
use mix_saving_bot.Runner.World.{
  inc_metric, notifier_error, CacheStore, Env, World, notify_row, notify_job,
}
use mix_saving_bot.Runner.Handle.{
  fail, get_cache, count_hit, admit, recover, handle_row, serve, wrapped, handle, output_of,
  complete,
}

-- A cache hit: the job's record after the two `mark_*` calls.
abbrev pub hit_record : Env → ℕ → CacheEntry → JobRecord → JobRecord
hit_record env n cached rec =
    as_succeeded (env.time (suc n)) (output_of cached none ∷ []) (as_running (env.time n) rec)

abbrev pub IsHit : {c : CacheStore} → Env → JobRecord → World c → CacheEntry → Type 0
IsHit {c} env rec w cached =
    (is_terminal rec.status ≡ false)
    × (validate_for_download env.lib rec.request.source_url env.constraints ≡ accepted)
    × (CacheStore.get c
          (canonical_cache_key env.lib rec.request.source_url rec.request.requested_format_id)
          w.cache
        ≡ ok (some cached))

running-Holds :
    {job : String} (s : JobService) (now : ℕ) {rec : JobRecord}
    → Holds job s rec
    → Holds job (mark_running now job s) (as_running now rec)
running-Holds {job} s now h = record {
  found = ground (arith, eq_iff job job, get-mark_running h job now);
  own = h.own;
}

module _ {c : CacheStore} (env : Env) (job : String) where
  -- `mark_succeeded` and the notification
  complete_lem :
      (outs : List JobOutputRef) (w : World c) {rec : JobRecord}
      → Holds job w.service rec
      → let row = as_succeeded (env.time w.readings) outs rec in
        complete env job outs w ≡ (
          if env.notify_raises (w.sent ++ row ∷ []) then raised notifier_error else ok tt,
          record w {
            service = mark_succeeded (env.time w.readings) job outs w.service;
            sent = w.sent ++ row ∷ [];
            readings = suc w.readings;
          },
        )
  unfolding complete notify_job notify_row get_job
  complete_lem outs w h =
      ground (arith, eq_iff job job, get-mark_succeeded h job (env.time w.readings) outs)

  -- the state after `mark_running`, `mark_succeeded` and the notification
  abbrev hit_world : CacheEntry → JobRecord → World c → World c
  hit_world cached rec w = record w {
    service =
        mark_succeeded (env.time (suc w.readings)) job (output_of cached none ∷ [])
          (mark_running (env.time w.readings) job w.service);
    sent = w.sent ++ hit_record env w.readings cached rec ∷ [];
    readings = suc (suc w.readings);
  }

  hit_world-Holds :
      (cached : CacheEntry) (w : World c) {rec : JobRecord}
      → Holds job w.service rec
      → Holds job (hit_world cached rec w).service (hit_record env w.readings cached rec)
  hit_world-Holds cached w h = record {
    found = ground (
      arith,
      eq_iff job job,
      get-mark_succeeded (running-Holds w.service (env.time w.readings) h) job
          (env.time (suc w.readings)) (output_of cached none ∷ []),
    );
    own = h.own;
  }

  serve_hit :
      (key : String) (req : SubmitDownloadRequest) (cached : CacheEntry) (w : World c)
      {rec : JobRecord}
      → Holds job w.service rec
      → serve env job key req (some cached) w
        ≡ then_do
            (
              if env.notify_raises (w.sent ++ hit_record env w.readings cached rec ∷ [])
                  then raised notifier_error
                  else ok tt,
              hit_world cached rec w,
            )
            (λ _. count_hit)
  unfolding serve
  serve_hit key req cached w h =
      ap (λ r. then_do r (λ _. count_hit))
        (complete_lem (output_of cached none ∷ [])
          (record w {
            service = mark_running (env.time w.readings) job w.service;
            readings = suc w.readings;
          })
          (running-Holds w.service (env.time w.readings) h))

fail_record :
    {c : CacheStore} (env : Env) (job code message : String) (w : World c) (rec : JobRecord)
    → Holds job w.service rec
    → (get_job job (fail env job code message w).1.service
        ≡ some (as_failed (env.time w.readings) code message rec))
      × ((fail env job code message w).1.calls ≡ w.calls)
unfolding fail notify_job get_job
fail_record env job code message w rec h =
    let s = mark_failed (env.time w.readings) job code message w.service in
    let v = record w { service = s; readings = suc w.readings } in
    let (same, calls) = service-notify_row env (get job s.repo) v in
    (
      rw same (
          ground (arith, eq_iff job job, get-mark_failed h job (env.time w.readings) code message)),
      calls,
    )

handle_hit :
    {c : CacheStore} (env : Env) (msg : QueueMessage) (w : World c) (rec : JobRecord)
    (cached : CacheEntry)
    → Holds msg.job_id w.service rec
    → IsHit env rec w cached
    → handle env msg w
      ≡ then_do
          (
            if env.notify_raises (w.sent ++ hit_record env w.readings cached rec ∷ [])
                then raised notifier_error
                else ok tt,
            hit_world env msg.job_id cached rec w,
          )
          (λ _. count_hit)
unfolding handle handle_row admit get_cache get_job
handle_hit env msg w rec cached h (live, good, hit) = rw h.found (
    rw live (
      rw good (
        rw hit (
          serve_hit env msg.job_id
            (canonical_cache_key env.lib rec.request.source_url rec.request.requested_format_id)
            rec.request cached w h))))

-- A job whose file is in the cache is done without a download. If the notifier takes the news, the
-- record is that of the two `mark_*` calls, with the cached file as its output. If the notifier
-- raises, the job that had succeeded, and was published as such, is then marked failed, as INTERNAL.
pub wrapped_hit :
    {c : CacheStore} (env : Env) (msg : QueueMessage) (w : World c) (rec : JobRecord)
    (cached : CacheEntry)
    → Holds msg.job_id w.service rec
    → IsHit env rec w cached
    → let row = hit_record env w.readings cached rec in
      let r = wrapped env msg w in
      (get_job msg.job_id r.1.service
        ≡ some (
            if env.notify_raises (w.sent ++ row ∷ [])
            then as_failed
                (env.time (suc (suc w.readings)))
                "INTERNAL"
                "An internal error occurred."
                row
            else row))
      × (r.1.calls ≡ w.calls)
unfolding wrapped recover count_hit get_job inc_metric
wrapped_hit env msg w rec cached h hit =
    elim (Bool-cases (env.notify_raises (w.sent ++ hit_record env w.readings cached rec ∷ []))) [
      | inl bad ↦ rw (handle_hit env msg w rec cached h hit) (
          rw bad (
            fail_record env msg.job_id _ _ (hit_world env msg.job_id cached rec w) _
              (hit_world-Holds env msg.job_id cached w h)))
      | inr good ↦
          rw (handle_hit env msg w rec cached h hit)
            (rw good ((hit_world-Holds env msg.job_id cached w h).found, refl))
    ]
