-- ===== src/Runner/Saved.antt =====
-- services/worker_runner.py: what the worker relies on in its cache, and what the retry loop leaves
-- there.
use mix_saving_bot.Common.{
  ℕ, zero, suc, String, ◌≡◌, refl, ap, ◌≢◌, ◌⊎◌, inl, inr, Option, none, some, List, [], ◌∷◌, ◌++◌,
  Bool-cases, string_eq, nat_eq,
}
use mix_saving_bot.Common.Exec.{
  finally, Exec, Result, ok, raised, pure, ◌>>◌, Post, Post-weaken, Triple, Triple-bind,
}
use mix_saving_bot.Contracts.{JobRecord, JobOutputRef, CacheEntry, succeeded}
use mix_saving_bot.Jobs.Repository.{Repo}
use mix_saving_bot.Jobs.Service.{JobService}
use mix_saving_bot.Runner.World.{
  DownloadJobContext, Exn, CacheStore, Item, Outcome, items, timed_out, transient, fatal, crashed,
  Env, World, inc_metric, notify_row, notify_job,
}
use mix_saving_bot.Runner.Handle.{
  give_up, call_download, clean_up, fetch, fail, settle, complete, put_cache, deliver,
}
use mix_saving_bot.Runner.Steps.{Tracks, succeeded-Ended, failed-Tracks}

-- What the worker relies on: a key that has been put is found from then on.
pub record Remembers (c : CacheStore) : Type 1 where
  pub Has : String → CacheStore.State c → Type 0
  pub put_has :
      (key path : String) (s : CacheStore.State c) (e : CacheEntry)
      → (CacheStore.put_from_path c key path s).0 ≡ ok e
      → Has key (CacheStore.put_from_path c key path s).1
  pub put_keeps :
      (key k path : String) (s : CacheStore.State c)
      → Has key s
      → Has key (CacheStore.put_from_path c k path s).1
  pub get_has :
      (key : String) (s : CacheStore.State c) (e : CacheEntry)
      → CacheStore.get c key s ≡ ok (some e)
      → Has key s
  pub has_get :
      (key : String) (s : CacheStore.State c)
      → Has key s
      → (e : CacheEntry) × (CacheStore.get c key s ≡ ok (some e))

module _ {c : CacheStore} (env : Env) (F : JobService → CacheStore.State c → Type 0) where
  -- a notification touches neither the records nor the cache
  pub notify_row-keeps :
      (row : Option JobRecord) (w : World c)
      → F w.service w.cache
      → Post {A = Unit {0}}
          (λ _ v. F v.service v.cache)
          (λ v. F v.service v.cache)
          (notify_row env row w)
  unfolding notify_row
  notify_row-keeps none w h = h
  notify_row-keeps (some row) w h = elim (Bool-cases (env.notify_raises (w.sent ++ row ∷ []))) [
    | inl bad ↦ rw bad h
    | inr good ↦ rw good h
  ]

module _ {c : CacheStore} (env : Env) (r : Remembers c) (job : String) (start : Repo)
    (key : String) where
  abbrev pub Known : World c → Type 0
  Known w = Tracks job start w.service

  -- the job has not succeeded
  abbrev pub Plain : World c → Type 0
  Plain w = (t : Tracks job start w.service) × (t.rec.status ≢ succeeded)

  -- the file is in the cache
  abbrev pub Saved : World c → Type 0
  Saved w = Tracks job start w.service × Remembers.Has r key w.cache

  abbrev pub Sound : World c → Type 0
  Sound w = Plain w ⊎ Saved w

  pub fail-Plain :
      (code message : String) → Triple Known (fail env job code message) (λ _. Plain) Plain
  unfolding fail notify_job
  fail-Plain code message = record {
    at = λ w t.
        notify_row-keeps env (λ s d. (u : Tracks job start s) × (u.rec.status ≢ succeeded)) _ _
          (let (u, e) = failed-Tracks job start w.service t (env.time w.readings) code message in
            (u, λ same. cc (ap (λ r. r.status) e, same)));
  }

  pub complete-Saved :
      (outs : List JobOutputRef) → Triple Saved (complete env job outs) (λ _. Saved) Known
  unfolding complete notify_job
  complete-Saved outs = record {
    at = λ w h.
        Post-weaken (λ _. Saved) Saved Known _ (λ v k. k.0)
          (notify_row-keeps env (λ s d. Tracks job start s × Remembers.Has r key d) _ _
            ((succeeded-Ended job start w.service h.0 (env.time w.readings) outs).tracks, h.1));
  }

  -- how the loop has ended
  abbrev pub Tried : Option (List Item) → World c → Type 0
  Tried none = Plain
  Tried (some l) = Known

  failed-Tried :
      (code message : String) → Triple Known (fail env job code message >> pure none) Tried Known
  failed-Tried code message =
      Triple-bind (λ _. Plain) (fail env job code message) (λ _. pure none)
        (record {
          at = λ w t.
              Post-weaken (λ _. Plain) Plain Known _ (λ v k. k.0)
                ((fail-Plain code message).at w t);
        })
        (λ _. record { at = λ w e. e })

  give_up-Tried : Triple Known (give_up env job) Tried Known
  unfolding give_up
  give_up-Tried = failed-Tried _ _

  settle-Tried :
      (again : Exec Exn (World c) (Option (List Item))) (out : Outcome)
      → Triple Known again Tried Known
      → Triple Known (settle env job again out) Tried Known
  unfolding settle
  settle-Tried again (items l) h = record { at = λ w t. t }
  settle-Tried again timed_out h = failed-Tried _ _
  settle-Tried again transient h = h
  settle-Tried again (fatal message) h = failed-Tried _ _
  settle-Tried again crashed h = record { at = λ w t. t }

  put_cache-Saved : (path : String) → Triple Known (put_cache env key path) (λ _. Saved) Known
  unfolding put_cache
  put_cache-Saved path = record {
    at = λ w t.
        keep w t (CacheStore.put_from_path c key path w.cache)
          (Remembers.put_has r key path w.cache);
  }
    where
      keep :
          (w : World c)
          → Known w
          → (p : Result Exn CacheEntry × CacheStore.State c)
          → ((e : CacheEntry) → p.0 ≡ ok e → Remembers.Has r key p.1)
          → Post (λ _. Saved) Known (p.0, record w { cache = p.1 })
      keep w t (ok entry, s) has = (t, has entry refl)
      keep w t (raised x, s) has = t

  pub deliver-Sound :
      (o : Option (List Item)) → Triple (Tried o) (deliver env job key o) (λ _. Sound) Known
  unfolding deliver inc_metric
  deliver-Sound none = record { at = λ w e. inl e }
  deliver-Sound (some []) = record { at = λ w t. t }
  deliver-Sound (some (primary ∷ rest)) =
      Triple-bind (λ _. Saved) (put_cache env key primary.local_path) _
        (put_cache-Saved primary.local_path)
        (λ entry.
          Triple-bind (λ _. Saved) (complete env job _) _ (complete-Saved _)
            (λ _. record { at = λ w e. inr e }))

  pub finally-Sound :
      (m : Exec Exn (World c) (Unit {0})) (t0 : ℕ) (dir : String)
      → Triple Known m (λ _. Sound) Known
      → Triple Known (finally m (clean_up env t0 dir)) (λ _. Sound) Known
  unfolding clean_up
  finally-Sound m t0 dir h = record { at = λ w t. keep (m w) (h.at w t) }
    where
      keep :
          (p : Result Exn (Unit {0}) × World c)
          → Post (λ _. Sound) Known p
          → Post (λ _. Sound) Known (p.0, clean_up env t0 dir p.1)
      keep (ok u, w) h = h
      keep (raised x, w) h = h

module _ {c : CacheStore} (env : Env) (r : Remembers c) (start : Repo) (key : String) where
  pub fetch-Tried :
      (n : ℕ) (ctx : DownloadJobContext)
      → Triple
          (Known env r ctx.job_id start key)
          (fetch env n ctx)
          (Tried env r ctx.job_id start key)
          (Known env r ctx.job_id start key)
  unfolding fetch call_download
  fetch-Tried zero ctx =
      Triple-bind (λ _. Known env r ctx.job_id start key) (call_download env ctx) _
        (record { at = λ w t. t })
        (λ out.
          settle-Tried env r ctx.job_id start key _ out (give_up-Tried env r ctx.job_id start key))
  fetch-Tried (suc n) ctx =
      Triple-bind (λ _. Known env r ctx.job_id start key) (call_download env ctx) _
        (record { at = λ w t. t })
        (λ out. settle-Tried env r ctx.job_id start key _ out (fetch-Tried n ctx))
