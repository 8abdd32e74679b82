-- ===== src/Runner/Succeeds.antt =====
-- services/worker_runner.py: the cache after a message, for a job that succeeds.
use mix_saving_bot.Common.{
  String, ◌≡◌, refl, inl, inr, false, Option, none, some, [], ◌∷◌, Option-cases, string_eq, nat_eq,
}
use mix_saving_bot.Common.Exec.{
  Result, ok, raised, Post, Post-weaken, Triple, Triple-bind, post_state,
}
use mix_saving_bot.Contracts.{
  JobRecord, CacheEntry, QueueMessage, SubmitDownloadRequest, is_terminal,
}
use mix_saving_bot.Jobs.Marks.{Holds}
use mix_saving_bot.Jobs.Repository.{Repo}
use mix_saving_bot.Jobs.Service.{get_job, mark_running}
use mix_saving_bot.Sanitize.{Verdict, accepted, sanitize_error, value_error, canonical_cache_key}
use mix_saving_bot.Runner.World.{Exn, CacheStore, Env, World, inc_metric, on_service}
use mix_saving_bot.Runner.Handle.{
  fail, fetch, complete, make_dir, read_monotonic, download_job, serve, get_cache, admit,
  handle_row, handle, recover, wrapped, context, output_of, count_hit,
}
use mix_saving_bot.Runner.Steps.{running-Tracks}
use mix_saving_bot.Runner.Saved.{
  Remembers, Known, Plain, Saved, Sound, Tried, fail-Plain, complete-Saved, deliver-Sound,
  finally-Sound, fetch-Tried,
}

module _ {c : CacheStore} (env : Env) (r : Remembers c) (job : String) (start : Repo)
    (key : String) where
  abbrev K : World c → Type 0
  K = Known env r job start key

  abbrev Q : World c → Type 0
  Q = Sound env r job start key

  make_dir-Known : Triple K (make_dir env job) (λ _. K) K
  unfolding make_dir
  make_dir-Known = record {
    at = λ w t. elim (Option-cases (env.temp_work_dir job)) [
      | inl e ↦ rw (e, make_dir) t
      | inr (d, e) ↦ rw (e, make_dir) t
    ];
  }

  download_job-Sound :
      (req : SubmitDownloadRequest) → Triple K (download_job env job key req) (λ _. Q) K
  unfolding download_job read_monotonic
  download_job-Sound req =
      Triple-bind (λ _. K) (make_dir env job) _ make_dir-Known
        (λ dir.
          Triple-bind (λ _. K) (read_monotonic env) _ (record { at = λ w t. t })
            (λ t0. finally-Sound env r job start key _ t0 dir (
              Triple-bind (Tried env r job start key) (fetch env 1 (context env job req dir)) _
                (fetch-Tried env r start key 1 (context env job req dir))
                (λ o. deliver-Sound env r job start key o))))

  -- what is known of the answer of the cache
  abbrev Looked : Option CacheEntry → World c → Type 0
  Looked none = K
  Looked (some e) = Saved env r job start key

  serve-Sound :
      (req : SubmitDownloadRequest) (o : Option CacheEntry)
      → Triple (Looked o) (serve env job key req o) (λ _. Q) K
  unfolding serve inc_metric
  serve-Sound req (some cached) =
      Triple-bind (λ _. Saved env r job start key)
        (on_service env (λ now s. mark_running now job s)) _
        (record { at = λ w h. (running-Tracks job start w.service h.0 (env.time w.readings), h.1) })
        (λ _.
          Triple-bind (λ _. Saved env r job start key)
            (complete env job (output_of cached none ∷ [])) (λ _. count_hit)
            (complete-Saved env r job start key _) (λ _. record { at = λ w e. inr e }))
  serve-Sound req none =
      Triple-bind (λ _. K) (inc_metric "cache_miss_total") _ (record { at = λ w t. t })
        (λ _.
          Triple-bind (λ _. K) (on_service env (λ now s. mark_running now job s)) _
            (record { at = λ w t. running-Tracks job start w.service t (env.time w.readings) })
            (λ _. download_job-Sound req))

  get_cache-Looked : Triple K (get_cache env key) Looked K
  unfolding get_cache
  get_cache-Looked = record {
    at = λ w t. keep w t (CacheStore.get c key w.cache) (Remembers.get_has r key w.cache);
  }
    where
      keep :
          (w : World c)
          → K w
          → (o : Result Exn (Option CacheEntry))
          → ((e : CacheEntry) → o ≡ ok (some e) → Remembers.Has r key w.cache)
          → Post Looked K (o, w)
      keep w t (ok none) has = t
      keep w t (ok (some e)) has = (t, has e refl)
      keep w t (raised x) has = t

  -- a row put to `failed` is a good end, also when its notification is not sent
  fail-Sound : (code message : String) → Triple K (fail env job code message) (λ _. Q) Q
  fail-Sound code message = record {
    at = λ w t. up _ ((fail-Plain env r job start key code message).at w t);
  }
    where
      up :
          (p : Result Exn (Unit {0}) × World c)
          → Post (λ _. Plain env r job start key) (Plain env r job start key) p
          → Post (λ _. Q) Q p
      up (ok u, w) h = inl h
      up (raised x, w) h = inl h

  -- as long as the key is that of the request
  admit-Sound :
      (req : SubmitDownloadRequest) (v : Verdict)
      → canonical_cache_key env.lib req.source_url req.requested_format_id ≡ key
      → Triple K (admit env job req v) (λ _. Q) K
  unfolding admit
  admit-Sound req (sanitize_error code message) e = record {
    at = λ w t. Post-weaken (λ _. Q) Q K _ known ((fail-Sound "UNSUPPORTED" message).at w t);
  }
    where
      known : (w : World c) → Q w → K w
      known w (inl p) = p.0
      known w (inr s) = s.0
  admit-Sound req value_error e = record { at = λ w t. t }
  admit-Sound req accepted e =
      rw e (Triple-bind Looked (get_cache env key) _ get_cache-Looked (λ o. serve-Sound req o))

  handle_row-Sound :
      (rec : JobRecord)
      → is_terminal rec.status ≡ false
      → canonical_cache_key env.lib rec.request.source_url rec.request.requested_format_id ≡ key
      → Triple K (handle_row env job (some rec)) (λ _. Q) K
  unfolding handle_row
  handle_row-Sound rec live e = rw live (admit-Sound rec.request _ e)

  recover-Sound :
      (p : Result Exn (Unit {0}) × World c)
      → Post (λ _. Q) K p
      → Post (λ _. Q) Q (recover env job p)
  unfolding recover
  recover-Sound (ok u, w) h = h
  recover-Sound (raised x, w) h = (fail-Sound "INTERNAL" "An internal error occurred.").at w h

pub wrapped-Sound :
    {c : CacheStore} (env : Env) (r : Remembers c) (msg : QueueMessage) (w : World c)
    (rec : JobRecord)
    → Holds msg.job_id w.service rec
    → is_terminal rec.status ≡ false
    → Sound env r msg.job_id w.service.repo
        (canonical_cache_key env.lib rec.request.source_url rec.request.requested_format_id)
        (wrapped env msg w).1
unfolding wrapped handle get_job
wrapped-Sound {c} env r msg w rec h live =
    let start = w.service.repo in
    let key = canonical_cache_key env.lib rec.request.source_url rec.request.requested_format_id in
    post_state (Sound env r msg.job_id start key) (wrapped env msg w) (
      recover-Sound env r msg.job_id start key _ (
        rw h.found (
          (handle_row-Sound env r msg.job_id start key rec live refl).at w
            (record { rec = rec; holds = h; rest = λ k n. refl }))))
