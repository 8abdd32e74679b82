-- ===== src/Pool/Tidy.antt =====
-- services/pipeline.py with the workers of the pool: the reservations and the downloads together.
use mix_saving_bot.Common.{
  ℕ, ◌+◌, ◌≤◌, String, ◌≡◌, refl, sym, ap, ◌∙◌, ◌≢◌, Bool, true, false, Option, none, some, List,
  ◌∷◌, ◌++◌, arith, eq_iff, if◌then◌else◌, ◌==◌, string_eq, nat_eq,
}
use mix_saving_bot.Pool.Exclusion.{finish-queue, asked-holder, settled-others, Step-IsGuarded}
use mix_saving_bot.Common.All.{All-right, All}
use mix_saving_bot.Dedupe.Pipeline.{TaskPipeline}
use mix_saving_bot.Pool.Guard.{OnceOnly, Holds, with_key-held, with_key-none, with_key}
use mathlib.Core.Path.{subst}
use mix_saving_bot.Common.Dict.{get}
use mix_saving_bot.Queue.Types.{Job}
use mix_saving_bot.Queue.Counts.{occurs}
use mix_saving_bot.Queue.Manager.{dequeue, init, publish_result, end_wait}
use mix_saving_bot.Queue.Worker.{Answer}
use mix_saving_bot.Dedupe.Cache.{JsonLibrary, init as cache_init}
use mix_saving_bot.Dedupe.Entry.{holder}
use mix_saving_bot.Dedupe.Processor.{crashed}
use mix_saving_bot.Pool.System.{
  Step, settled, take_job, answer, close_queue, dedupe_key_for_payload, start, ask, leave, System,
  submits, leaves, asks, closes, takes, settles, answers, settle,
}
use mix_saving_bot.Pool.Leaks.{
  finish-closed, taken-owned, with_key-append, submit-owned, settled-free, is_calm, IsTidy,
  CalmRuns, here, next,
}

-- how many downloads there should be for a key, by who has its reservation
abbrev pub downloads : Option String → ℕ
downloads none = 0
downloads (some id) = 1

module _ (lib : JsonLibrary) where
  -- A reservation that is there after a job has ended is for another key than the job's.
  settle-owned :
      (s : System) (torn : Option (List String)) (a : Answer) (before : List Job) (job : Job)
      (after : List Job)
      → s.working ≡ before ++ job ∷ after
      → crashed a ≡ false
      → IsTidy lib s
      → let t = settle lib torn a before job after s in
        (k h : String)
        → holder k t.pipeline ≡ some h
        → 1 ≤ with_key lib k t.pipeline.queue.queue + with_key lib k t.working
  unfolding settle with_key
  settle-owned s torn a before job after e fine v k h f =
      let p = s.pipeline in
      let key = dedupe_key_for_payload lib job in
      let p' : TaskPipeline = record p { cache = settled lib torn job a p.cache } in
      let works : All (Holds lib p) (before ++ job ∷ after) =
        subst (All (Holds lib p)) e v.guarded.works in
      let kind : (job.kind == "download") ≡ true =
        (eq_iff job.kind "download").1
          (All-right (Holds lib p) before (job ∷ after) works).0.kind in
      let f' : holder k p' ≡ some h =
        subst
          (λ b.
            holder k (record p { cache = if b then settled lib torn job a p.cache else p.cache })
            ≡ some h)
          kind f in
      let other : k ≢ key =
        λ same. cc (same, f', settled-free lib torn job a p fine v.guarded.cached) in
      let old : holder k p ≡ some h = sym (settled-others lib torn job a true p k other) ∙ f' in
      ground (
        arith,
        v.owned k h old,
        ap (with_key lib k) e,
        with_key-append lib k before (job ∷ after),
        with_key-append lib k before after,
        eq_iff key k,
        other,
      )

  Step-IsTidy : {s t : System} (st : Step lib s t) → is_calm st ≡ true → IsTidy lib s → IsTidy lib t
  unfolding leave ask close_queue end_wait holder answer publish_result settle take_job dequeue
  Step-IsTidy (submits s e id now url media fresh) calm v =
      let (opened, owned) = submit-owned lib s e id now url media v in
      record {
        guarded = Step-IsGuarded lib (submits s e id now url media fresh) v.guarded;
        opened = opened;
        owned = owned;
      }
  Step-IsTidy (leaves s job) calm v = record {
    guarded = Step-IsGuarded lib (leaves s job) v.guarded;
    opened = v.opened;
    owned = v.owned;
  }
  Step-IsTidy (asks s e key) calm v = record {
    guarded = Step-IsGuarded lib (asks s e key) v.guarded;
    opened = v.opened;
    owned = λ k h f. v.owned k h (sym (asked-holder lib e key k s.pipeline) ∙ f);
  }
  Step-IsTidy (closes s) calm v = cc
  Step-IsTidy (takes s now idle) calm v =
      let (opened, owned) = taken-owned lib now s s.pipeline.queue.queue refl v in
      record {
        guarded = Step-IsGuarded lib (takes s now idle) v.guarded;
        opened = opened;
        owned = owned;
      }
  Step-IsTidy (settles s torn a before job after e) calm v = record {
    guarded = Step-IsGuarded lib (settles s torn a before job after e) v.guarded;
    opened = v.opened;
    owned = settle-owned s torn a before job after e (ground (arith, calm)) v;
  }
  Step-IsTidy (answers s before job res after e) calm v =
      let plain : job.retry_on_failure ≡ false =
        (All-right OnceOnly before ((job, res) ∷ after)
          (subst (All OnceOnly) e v.guarded.plain)).0 in
      let m = publish_result res s.pipeline.queue in
      record {
        guarded = Step-IsGuarded lib (answers s before job res after e) v.guarded;
        opened = finish-closed job res m plain ∙ v.opened;
        owned = λ k h f.
            omega (arith, v.owned k h f, ap (with_key lib k) (finish-queue job res m plain));
      }

  Runs-IsTidy : {s t : System} → CalmRuns lib s t → IsTidy lib s → IsTidy lib t
  Runs-IsTidy here v = v
  Runs-IsTidy (next r st calm) v = Step-IsTidy st calm (Runs-IsTidy r v)

  counted :
      (s : System) (key : String) (o : Option String)
      → holder key s.pipeline ≡ o
      → IsTidy lib s
      → with_key lib key s.pipeline.queue.queue + with_key lib key s.working ≡ downloads o
  counted s key none e v = omega (
    arith,
    with_key-none lib s.pipeline key e s.pipeline.queue.queue v.guarded.waits,
    with_key-none lib s.pipeline key e s.working v.guarded.works,
  )
  counted s key (some id) e v = omega (
    arith,
    v.owned key id e,
    with_key-held lib s.pipeline key s.pipeline.queue.queue s.working v.guarded.waits
        v.guarded.works v.guarded.once,
  )

  -- From a new queue and a new cache on, there is exactly one download in the queue or with a worker
  -- for each key that is reserved, and none for any other key, as long as the ids are new, the queue
  -- is open, no processor raises and no stale job is put back.
  pub reserved_by_download :
      (maxsize stale_after workers : ℕ) (has_index : Bool) (file : Option (List String))
      {t : System}
      → CalmRuns lib
          (start
            (record { queue = init maxsize stale_after; cache = some (cache_init has_index file) })
            workers)
          t
      → (key : String)
      → with_key lib key t.pipeline.queue.queue + with_key lib key t.working
        ≡ downloads (holder key t.pipeline)
  unfolding occurs holder get
  reserved_by_download maxsize stale_after workers has_index file {t} r key =
      counted t key (holder key t.pipeline) refl (
        Runs-IsTidy r (record {
          guarded = record {
            cached = (cache_init has_index file, refl);
            waits = tt;
            works = tt;
            once = λ id. omega arith;
            plain = tt;
          };
          opened = refl;
          owned = λ k h f. absurd (cc f);
        }))
