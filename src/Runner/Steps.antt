-- ===== src/Runner/Steps.antt =====
-- services/worker_runner.py: what each part of `handle` does to the job records, whether it returns
-- or raises.
use mix_saving_bot.Common.{
  ℕ, zero, suc, String, ◌≡◌, refl, ap, ◌≢◌, inl, inr, true, false, Option, none, some, List, [],
  ◌∷◌, ◌++◌, arith, eq_iff, Bool-cases, string_eq, nat_eq,
}
use mix_saving_bot.Common.Exec.{
  Post-weaken, Exec, Result, ok, raised, pure, ◌>>◌, Post, Triple, Triple-bind,
}
use mix_saving_bot.Common.Dict.{get}
use mix_saving_bot.Contracts.{JobRecord, JobOutputRef, CacheEntry, is_terminal}
use mix_saving_bot.Jobs.Repository.{Repo}
use mix_saving_bot.Jobs.Service.{
  get_job, JobService, mark_running, mark_succeeded, mark_failed, as_running, as_succeeded,
  as_failed,
}
use mix_saving_bot.Jobs.Marks.{Holds, get-mark_running, get-mark_succeeded, get-mark_failed}
use mix_saving_bot.Runner.World.{
  Exn, CacheStore, Item, DownloadJobContext, Outcome, items, timed_out, transient, fatal, crashed,
  Env, World, inc_metric, notify_row, notify_job,
}
use mix_saving_bot.Runner.Handle.{
  fail, call_download, settle, give_up, fetch, complete, put_cache, deliver,
}

-- The job has its record, and the others have the records that they had at the start.
pub record Tracks (job : String) (start : Repo) (s : JobService) : Type 0 where
  pub rec : JobRecord
  pub holds : Holds job s rec
  pub rest : (k : String) → job ≢ k → get k s.repo ≡ get k start

-- The job has ended besides.
pub record Ended (job : String) (start : Repo) (s : JobService) : Type 0 where
  pub tracks : Tracks job start s
  pub ended : is_terminal tracks.rec.status ≡ true

-- And the notifier was last told of the job's record, and took it.
pub record Told (env : Env) (job : String) (start : Repo) (s : JobService) (sent : List JobRecord)
    : Type 0 where
  pub finished : Ended job start s
  pub before : List JobRecord
  pub said : sent ≡ before ++ finished.tracks.rec ∷ []
  pub heard : env.notify_raises sent ≡ false

module _ (job : String) (start : Repo) (s : JobService) (t : Tracks job start s) (now : ℕ) where
  pub running-Tracks : Tracks job start (mark_running now job s)
  running-Tracks = record {
    rec = as_running now t.rec;
    holds = record {
      found = ground (arith, get-mark_running t.holds job now, eq_iff job job);
      own = t.holds.own;
    };
    rest = λ k n. ground (arith, get-mark_running t.holds k now, eq_iff job k, t.rest k);
  }

  pub succeeded-Ended : (outs : List JobOutputRef) → Ended job start (mark_succeeded now job outs s)
  succeeded-Ended outs = record {
    tracks = record {
      rec = as_succeeded now outs t.rec;
      holds = record {
        found = ground (arith, get-mark_succeeded t.holds job now outs, eq_iff job job);
        own = t.holds.own;
      };
      rest = λ k n. ground (arith, get-mark_succeeded t.holds k now outs, eq_iff job k, t.rest k);
    };
    ended = refl;
  }

  pub failed-Tracks :
      (code message : String)
      → (u : Tracks job start (mark_failed now job code message s)) × (u.rec
          ≡ as_failed now code message t.rec)
  failed-Tracks code message = (
    record {
      rec = as_failed now code message t.rec;
      holds = record {
        found = ground (arith, get-mark_failed t.holds job now code message, eq_iff job job);
        own = t.holds.own;
      };
      rest =
          λ k n. ground (arith, get-mark_failed t.holds k now code message, eq_iff job k, t.rest k);
    },
    refl,
  )

  pub failed-Ended : (code message : String) → Ended job start (mark_failed now job code message s)
  failed-Ended code message =
      let (u, e) = failed-Tracks code message in
      record { tracks = u; ended = ap (λ r. is_terminal r.status) e }

module _ {c : CacheStore} (env : Env) (job : String) (start : Repo) where
  abbrev pub During : World c → Type 0
  During w = Tracks job start w.service

  abbrev pub After : World c → Type 0
  After w = Ended job start w.service

  abbrev pub Heard : World c → Type 0
  Heard w = Told env job start w.service w.sent

  notify_row-Heard :
      (w : World c) (e : After w)
      → Post {A = Unit {0}} (λ _. Heard) After (notify_row env (some e.tracks.rec) w)
  unfolding notify_row
  notify_row-Heard w e = elim (Bool-cases (env.notify_raises (w.sent ++ e.tracks.rec ∷ []))) [
    | inl bad ↦ rw bad e
    | inr good ↦ rw good (record { finished = e; before = w.sent; said = refl; heard = good })
  ]

  notify_job-Heard :
      (w : World c) → After w → Post {A = Unit {0}} (λ _. Heard) After (notify_job env job w)
  unfolding notify_job get_job
  notify_job-Heard w e = rw (e.tracks.holds.found) (notify_row-Heard w e)

  pub fail-Heard :
      (code message : String) → Triple During (fail env job code message) (λ _. Heard) After
  unfolding fail
  fail-Heard code message = record {
    at = λ w t.
        notify_job-Heard _ (failed-Ended job start w.service t (env.time w.readings) code message);
  }

  pub complete-Heard :
      (outs : List JobOutputRef) → Triple During (complete env job outs) (λ _. Heard) After
  unfolding complete
  complete-Heard outs = record {
    at = λ w t.
        notify_job-Heard _ (succeeded-Ended job start w.service t (env.time w.readings) outs);
  }

  -- the loop has ended by `return`, with the job ended, or by `break`
  abbrev pub Fetched : Option (List Item) → World c → Type 0
  Fetched none = Heard
  Fetched (some l) = During

  pub ended_before : (w : World c) → After w → During w
  ended_before w h = h.tracks

  pub weaker :
      (m : Exec Exn (World c) (Unit {0}))
      → Triple During m (λ _. Heard) After
      → Triple During m (λ _. Heard) During
  weaker m h = record {
    at = λ w t. Post-weaken (λ _. Heard) After During (m w) ended_before (h.at w t);
  }

  returned :
      (m : Exec Exn (World c) (Unit {0}))
      → Triple During m (λ _. Heard) After
      → Triple During (m >> pure none) Fetched During
  returned m h =
      Triple-bind (λ _. Heard) m (λ _. pure none) (weaker m h) (λ _. record { at = λ w e. e })

  settle-Fetched :
      (again : Exec Exn (World c) (Option (List Item))) (out : Outcome)
      → Triple During again Fetched During
      → Triple During (settle env job again out) Fetched During
  unfolding settle
  settle-Fetched again (items l) h = record { at = λ w t. t }
  settle-Fetched again timed_out h = returned _ (fail-Heard _ _)
  settle-Fetched again transient h = h
  settle-Fetched again (fatal message) h = returned _ (fail-Heard _ _)
  settle-Fetched again crashed h = record { at = λ w t. t }

  give_up-Fetched : Triple During (give_up env job) Fetched During
  unfolding give_up
  give_up-Fetched = returned _ (fail-Heard _ _)

  put_cache-During :
      (key path : String) → Triple During (put_cache env key path) (λ _. During) During
  unfolding put_cache
  put_cache-During key path = record {
    at = λ w t. keep w t (CacheStore.put_from_path c key path w.cache);
  }
    where
      keep :
          (w : World c)
          → During w
          → (r : Result Exn CacheEntry × CacheStore.State c)
          → Post (λ _. During) During (r.0, record w { cache = r.1 })
      keep w t (ok entry, s) = t
      keep w t (raised x, s) = t

  pub deliver-Heard :
      (key : String) (o : Option (List Item))
      → Triple (Fetched o) (deliver env job key o) (λ _. Heard) During
  unfolding deliver inc_metric
  deliver-Heard key none = record { at = λ w e. e }
  deliver-Heard key (some []) = record { at = λ w t. t }
  deliver-Heard key (some (primary ∷ rest)) =
      Triple-bind (λ _. During) (put_cache env key primary.local_path) _
        (put_cache-During key primary.local_path)
        (λ entry.
          Triple-bind (λ _. Heard) (complete env job _) _ (weaker _ (complete-Heard _))
            (λ _. record { at = λ w e. e }))

module _ {c : CacheStore} (env : Env) (start : Repo) where
  pub fetch-Fetched :
      (r : ℕ) (ctx : DownloadJobContext)
      → Triple
          (During {c = c} env ctx.job_id start)
          (fetch env r ctx)
          (Fetched env ctx.job_id start)
          (During env ctx.job_id start)
  unfolding fetch call_download
  fetch-Fetched zero ctx =
      Triple-bind (λ _. During env ctx.job_id start) (call_download env ctx) _
        (record { at = λ w t. t })
        (λ out. settle-Fetched env ctx.job_id start _ out (give_up-Fetched env ctx.job_id start))
  fetch-Fetched (suc r) ctx =
      Triple-bind (λ _. During env ctx.job_id start) (call_download env ctx) _
        (record { at = λ w t. t })
        (λ out. settle-Fetched env ctx.job_id start _ out (fetch-Fetched r ctx))
