-- ===== src/Runner/Kept.antt =====
-- services/worker_runner.py: what handling a message does to the cache.
use mix_saving_bot.Common.{
  ℕ, zero, suc, String, inl, inr, Option, none, some, List, [], ◌∷◌, Bool-cases, Option-cases,
  string_eq, nat_eq,
}
use mix_saving_bot.Jobs.Service.{mark_running}
use mix_saving_bot.Sanitize.{accepted, sanitize_error, Verdict, value_error}
use mix_saving_bot.Runner.Saved.{notify_row-keeps}
use mix_saving_bot.Contracts.{
  is_terminal, CacheEntry, JobOutputRef, SubmitDownloadRequest, QueueMessage, JobRecord,
}
use mix_saving_bot.Common.Exec.{
  then_do, raised, post_state, ok, Post, Triple, Triple-bind, finally, pure, ◌>>◌, Result, Exec,
}
use mix_saving_bot.Runner.Handle.{
  settle, count_hit, output_of, context, make_dir, call_download, read_monotonic, handle, get_cache,
  complete, serve, recover, deliver, put_cache, handle_row, fetch, fail, give_up, admit, wrapped,
  clean_up, download_job,
}
use mix_saving_bot.Runner.World.{
  crashed, transient, timed_out, fatal, on_service, items, Outcome, DownloadJobContext, Exn,
  inc_metric, notify_job, World, Item, Env, CacheStore,
}

module _ {c : CacheStore} (env : Env) (H : CacheStore.State c → Type 0)
    (kept : (key path : String) (s : CacheStore.State c)
      → H s
      → H (CacheStore.put_from_path c key path s).1) where
  -- an action after which the cache still has what it had
  abbrev Keeps : {A : Type 0} → Exec Exn (World c) A → Type 0
  Keeps m = Triple (λ w. H w.cache) m (λ _ w. H w.cache) (λ w. H w.cache)

  fail-Keeps : (job code message : String) → Keeps (fail env job code message)
  unfolding fail notify_job
  fail-Keeps job code message = record { at = λ w h. notify_row-keeps env (λ s d. H d) _ _ h }

  failed-Keeps :
      (job code message : String)
      → Keeps {A = Option (List Item)} (fail env job code message >> pure none)
  failed-Keeps job code message =
      Triple-bind (λ _ w. H w.cache) (fail env job code message) (λ _. pure none)
        (fail-Keeps job code message) (λ _. record { at = λ w h. h })

  complete-Keeps : (job : String) (outs : List JobOutputRef) → Keeps (complete env job outs)
  unfolding complete notify_job
  complete-Keeps job outs = record { at = λ w h. notify_row-keeps env (λ s d. H d) _ _ h }

  settle-Keeps :
      (job : String) (again : Exec Exn (World c) (Option (List Item))) (out : Outcome)
      → Keeps again
      → Keeps (settle env job again out)
  unfolding settle
  settle-Keeps job again (items l) h = record { at = λ w h. h }
  settle-Keeps job again timed_out h = failed-Keeps job _ _
  settle-Keeps job again transient h = h
  settle-Keeps job again (fatal message) h = failed-Keeps job _ _
  settle-Keeps job again crashed h = record { at = λ w h. h }

  give_up-Keeps : (job : String) → Keeps (give_up env job)
  unfolding give_up
  give_up-Keeps job = failed-Keeps job _ _

  fetch-Keeps : (n : ℕ) (ctx : DownloadJobContext) → Keeps (fetch env n ctx)
  unfolding fetch call_download
  fetch-Keeps zero ctx =
      Triple-bind (λ _ w. H w.cache) (call_download env ctx) _ (record { at = λ w h. h })
        (λ out. settle-Keeps ctx.job_id _ out (give_up-Keeps ctx.job_id))
  fetch-Keeps (suc n) ctx =
      Triple-bind (λ _ w. H w.cache) (call_download env ctx) _ (record { at = λ w h. h })
        (λ out. settle-Keeps ctx.job_id _ out (fetch-Keeps n ctx))

  put_cache-Keeps : (key path : String) → Keeps (put_cache env key path)
  unfolding put_cache
  put_cache-Keeps key path = record {
    at = λ w h. keep w (CacheStore.put_from_path c key path w.cache) (kept key path w.cache h);
  }
    where
      keep :
          (w : World c) (p : Result Exn CacheEntry × CacheStore.State c)
          → H p.1
          → Post (λ _ v. H v.cache) (λ v. H v.cache) (p.0, record w { cache = p.1 })
      keep w (ok entry, s) h = h
      keep w (raised x, s) h = h

  deliver-Keeps : (job key : String) (o : Option (List Item)) → Keeps (deliver env job key o)
  unfolding deliver inc_metric
  deliver-Keeps job key none = record { at = λ w h. h }
  deliver-Keeps job key (some []) = record { at = λ w h. h }
  deliver-Keeps job key (some (primary ∷ rest)) =
      Triple-bind (λ _ w. H w.cache) (put_cache env key primary.local_path) _
        (put_cache-Keeps key primary.local_path)
        (λ entry.
          Triple-bind (λ _ w. H w.cache) (complete env job _) _ (complete-Keeps job _)
            (λ _. record { at = λ w h. h }))

  finally-Keeps :
      (m : Exec Exn (World c) (Unit {0})) (t0 : ℕ) (dir : String)
      → Keeps m
      → Keeps (finally m (clean_up env t0 dir))
  unfolding clean_up
  finally-Keeps m t0 dir h = record { at = λ w t. keep (m w) (h.at w t) }
    where
      keep :
          (p : Result Exn (Unit {0}) × World c)
          → Post (λ _ v. H v.cache) (λ v. H v.cache) p
          → Post (λ _ v. H v.cache) (λ v. H v.cache) (p.0, clean_up env t0 dir p.1)
      keep (ok u, w) h = h
      keep (raised x, w) h = h

  download_job-Keeps :
      (job key : String) (req : SubmitDownloadRequest) → Keeps (download_job env job key req)
  unfolding download_job read_monotonic
  download_job-Keeps job key req = record {
    at = λ w h. elim (Option-cases (env.temp_work_dir job)) [
      | inl e ↦ rw (e, make_dir) h
      | inr (dir, e) ↦
          rw (e, make_dir)
            ((finally-Keeps _ (env.monotonic w.readings) dir (
                Triple-bind (λ _ w. H w.cache) (fetch env 1 (context env job req dir)) _
                  (fetch-Keeps 1 (context env job req dir)) (λ o. deliver-Keeps job key o))).at
              _ h)
    ];
  }

  serve-Keeps :
      (job key : String) (req : SubmitDownloadRequest) (o : Option CacheEntry)
      → Keeps (serve env job key req o)
  unfolding serve inc_metric
  serve-Keeps job key req (some cached) =
      Triple-bind (λ _ w. H w.cache) (on_service env (λ now s. mark_running now job s)) _
        (record { at = λ w h. h })
        (λ _.
          Triple-bind (λ _ w. H w.cache) (complete env job (output_of cached none ∷ []))
            (λ _. count_hit) (complete-Keeps job _) (λ _. record { at = λ w h. h }))
  serve-Keeps job key req none = record { at = λ w h. (download_job-Keeps job key req).at _ h }

  admit-Keeps :
      (job : String) (req : SubmitDownloadRequest) (v : Verdict) → Keeps (admit env job req v)
  unfolding admit get_cache
  admit-Keeps job req (sanitize_error code message) = fail-Keeps job "UNSUPPORTED" message
  admit-Keeps job req value_error = record { at = λ w h. h }
  admit-Keeps job req accepted = record { at = λ w h. looked w h _ (CacheStore.get c _ w.cache) }
    where
      looked :
          (w : World c)
          → H w.cache
          → (key : String) (o : Result Exn (Option CacheEntry))
          → Post
              (λ _ v. H v.cache)
              (λ v. H v.cache)
              (then_do (o, w) (λ cached. serve env job key req cached))
      looked w h key (ok o) = (serve-Keeps job key req o).at w h
      looked w h key (raised x) = h

  handle_row-Keeps : (job : String) (row : Option JobRecord) → Keeps (handle_row env job row)
  unfolding handle_row
  handle_row-Keeps job none = record { at = λ w h. h }
  handle_row-Keeps job (some rec) = elim (Bool-cases (is_terminal rec.status)) [
    | inl ended ↦ rw ended (record { at = λ w h. h })
    | inr live ↦ rw live (admit-Keeps job rec.request _)
  ]

  recover-Keeps :
      (job : String) (p : Result Exn (Unit {0}) × World c)
      → Post (λ _ v. H v.cache) (λ v. H v.cache) p
      → Post (λ _ v. H v.cache) (λ v. H v.cache) (recover env job p)
  unfolding recover
  recover-Keeps job (ok u, w) h = h
  recover-Keeps job (raised x, w) h = (fail-Keeps job _ _).at w h

  pub wrapped-keeps : (msg : QueueMessage) (w : World c) → H w.cache → H (wrapped env msg w).1.cache
  unfolding wrapped handle
  wrapped-keeps msg w h =
      post_state (λ v. H v.cache) (wrapped env msg w)
        (recover-Keeps msg.job_id _ ((handle_row-Keeps msg.job_id _).at w h))
