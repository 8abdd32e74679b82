-- ===== src/Runner/Again.antt =====
-- services/worker_runner.py: messages for a file that another message has brought into the cache.
use mix_saving_bot.Common.{
  suc, String, ◌≡◌, inl, inr, false, not, some, [], ◌∷◌, ◌++◌, if◌then◌else◌, string_eq, nat_eq,
}
use mix_saving_bot.Common.Exec.{ok}
use mix_saving_bot.Runner.Succeeds.{wrapped-Sound}
use mix_saving_bot.Runner.Hits.{wrapped_hit, hit_record}
use mix_saving_bot.Sanitize.{canonical_cache_key, accepted, validate_for_download}
use mix_saving_bot.Jobs.Marks.{Holds}
use mix_saving_bot.Runner.Handle.{wrapped}
use mix_saving_bot.Jobs.Repository.{Repo}
use mix_saving_bot.Runner.Kept.{wrapped-keeps}
use mix_saving_bot.Contracts.{CacheEntry, is_terminal, succeeded, JobRecord, QueueMessage}
use mix_saving_bot.Runner.Saved.{Sound, Remembers}
use mix_saving_bot.Runner.World.{World, Env, CacheStore}
use mix_saving_bot.Jobs.Service.{as_failed, JobService, get_job}

-- What follows in the same process: more messages are handled, and meanwhile others change the job
-- records (`submit`, `cancel`, other workers). Only the worker writes to the cache.
pub data Later {c : CacheStore} (env : Env) : World c → World c → Type 0 where
  here : (w : World c) → Later env w w
  handles : (msg : QueueMessage) (w v : World c) → Later env (wrapped env msg w).1 v → Later env w v
  elsewhere :
      (s : JobService) (w v : World c) → Later env (record w { service = s }) v → Later env w v

module _ {c : CacheStore} (env : Env) (r : Remembers c) (key : String) where
  Later-Has :
      {w v : World c} → Later env w v → Remembers.Has r key w.cache → Remembers.Has r key v.cache
  Later-Has (here w) h = h
  Later-Has (handles msg w v l) h =
      Later-Has l (wrapped-keeps env (Remembers.Has r key) (Remembers.put_keeps r key) msg w h)
  Later-Has (elsewhere s w v l) h = Later-Has l h

-- a job that has succeeded left its file in the cache
saved :
    {c : CacheStore} (env : Env) (r : Remembers c) (job key : String) (start : Repo) (w : World c)
    (done : JobRecord)
    → Sound env r job start key w
    → get_job job w.service ≡ some done
    → done.status ≡ succeeded
    → Remembers.Has r key w.cache
unfolding get_job
saved env r job key start w done (inl (t, not)) found good =
    absurd (not (cc (t.holds.found, found, good)))
saved env r job key start w done (inr (t, has)) found good = has

-- Let a message bring a live job to `succeeded`, with any cache that keeps what is put. Whatever is
-- handled or changed in the job records afterwards, a message for a live job whose URL is accepted
-- and has the same cache key is served from the cache: nothing is downloaded for it, and its record
-- gets the cached file as its output (or is marked failed if the notifier then raises).
pub downloaded_once :
    {c : CacheStore} (env : Env) (r : Remembers c) (first second : QueueMessage) (w v : World c)
    (rec done rec2 : JobRecord)
    → Holds first.job_id w.service rec
    → is_terminal rec.status ≡ false
    → get_job first.job_id (wrapped env first w).1.service ≡ some done
    → done.status ≡ succeeded
    → Later env (wrapped env first w).1 v
    → Holds second.job_id v.service rec2
    → is_terminal rec2.status ≡ false
    → validate_for_download env.lib rec2.request.source_url env.constraints ≡ accepted
    → canonical_cache_key env.lib rec2.request.source_url rec2.request.requested_format_id
      ≡ canonical_cache_key env.lib rec.request.source_url rec.request.requested_format_id
    → (cached : CacheEntry) × (let row = hit_record env v.readings cached rec2 in
        (CacheStore.get c
            (canonical_cache_key env.lib rec2.request.source_url rec2.request.requested_format_id)
            v.cache
          ≡ ok (some cached))
        × (get_job second.job_id (wrapped env second v).1.service
            ≡ some (
                if env.notify_raises (v.sent ++ row ∷ [])
                then as_failed
                    (env.time (suc (suc v.readings)))
                    "INTERNAL"
                    "An internal error occurred."
                    row
                else row))
        × ((wrapped env second v).1.calls ≡ v.calls))
downloaded_once {c} env r first second w v rec done rec2 h live found good later h2 live2 valid
      same =
    let key = canonical_cache_key env.lib rec.request.source_url rec.request.requested_format_id in
    let has = Later-Has env r key later (
      saved env r first.job_id key w.service.repo (wrapped env first w).1 done
        (wrapped-Sound env r first w rec h live) found good) in
    let (cached, hit) = Remembers.has_get r key v.cache has in
    let (record_now, no_calls) =
      wrapped_hit env second v rec2 cached h2 (live2, valid, rw same hit) in
    (cached, (rw same hit, record_now, no_calls))
