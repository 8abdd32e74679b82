-- ===== src/Pool/Exclusion.antt =====
-- services/pipeline.py with the workers of the pool: the downloads of one resource at a time.
use mix_saving_bot.Common.{
  ℕ, ◌+◌, ◌≤◌, String, ◌≡◌, refl, ap, ◌∙◌, ◌≢◌, Bool, true, false, Option, none, some, List, ◌∷◌,
  ◌++◌, arith, eq_iff, eq_refl, if◌then◌else◌, ◌==◌, string_eq, nat_eq,
}
use mix_saving_bot.Pool.Steps.{take_job-IsGuarded, submit-IsGuarded, IsGuarded-same}
use mix_saving_bot.Dedupe.Exclusion.{check_disk-in_flight}
use mix_saving_bot.Pool.Entry.{HasCache}
use mix_saving_bot.Common.All.{All-without, All-right, All}
use mix_saving_bot.Dedupe.Processor.{settle_job}
use mix_saving_bot.Queue.Worker.{crashes, returns, Answer, finish}
use mathlib.Core.Path.{subst}
use mix_saving_bot.Common.Dict.{get, get-remove}
use mix_saving_bot.Queue.Types.{Job, TaskResult}
use mix_saving_bot.Queue.Counts.{occurs, occurs-append}
use mix_saving_bot.Queue.Manager.{
  Manager, acknowledge, task_done, init, publish_result, end_wait, close,
}
use mix_saving_bot.Dedupe.Cache.{
  abort, commit, is_duplicate, JsonLibrary, DownloadCache, append_disk_index, init as cache_init,
}
use mix_saving_bot.Dedupe.Pipeline.{TaskPipeline}
use mix_saving_bot.Dedupe.Entry.{holder}
use mix_saving_bot.Pool.System.{
  here, next, leaves, asks, closes, takes, settles, answers, settle, Step, settled, start,
  close_queue, dedupe_key_for_payload, asked, Runs, ask, System, leave, answer, submits,
}
use mix_saving_bot.Pool.Guard.{with_key-held, All-released, OnceOnly, IsGuarded, Holds, with_key}

-- an acknowledgement takes nothing from the queue
pub acknowledge-queue : (job : Job) (m : Manager) → (acknowledge job m).1.queue ≡ m.queue
unfolding acknowledge task_done
acknowledge-queue job m = ground arith

pub finish-queue :
    (job : Job) (res : TaskResult) (m : Manager)
    → job.retry_on_failure ≡ false
    → (finish job res m).1.queue ≡ m.queue
unfolding finish
finish-queue job res m e = ground (arith, e, acknowledge-queue job m)

-- the reservations of other keys stay where a job ends
settle_job-others :
    (lib : JsonLibrary) (torn : Option (List String)) (key k : String) (a : Answer)
    (c : DownloadCache)
    → k ≢ key
    → get k (settle_job lib torn key a c).in_flight ≡ get k c.in_flight
unfolding settle_job commit abort append_disk_index
settle_job-others lib torn key k (returns res) c ne =
    ground (arith, ne, get-remove key k c.in_flight, eq_iff key k)
settle_job-others lib torn key k (crashes tb) c ne = refl

pub settled-others :
    (lib : JsonLibrary) (torn : Option (List String)) (job : Job) (a : Answer) (b : Bool)
    (p : TaskPipeline) (k : String)
    → k ≢ dedupe_key_for_payload lib job
    → holder k (record p { cache = if b then settled lib torn job a p.cache else p.cache })
      ≡ holder k p
unfolding holder
settled-others lib torn job a false p k ne = refl
settled-others lib torn job a true p k ne = by_cache p.cache
  where
    by_cache :
        (o : Option DownloadCache)
        → holder k (record p { cache = settled lib torn job a o })
          ≡ holder k (record p { cache = o })
    by_cache none = refl
    by_cache (some c) = settle_job-others lib torn (dedupe_key_for_payload lib job) k a c ne

settled-cached :
    (lib : JsonLibrary) (torn : Option (List String)) (job : Job) (a : Answer) (b : Bool)
    (p : TaskPipeline)
    → HasCache p
    → HasCache (record p { cache = if b then settled lib torn job a p.cache else p.cache })
settled-cached lib torn job a false p h = h
settled-cached lib torn job a true p (c, e) =
    (settle_job lib torn (dedupe_key_for_payload lib job) a c, ap (settled lib torn job a) e)

module _ (lib : JsonLibrary) where
  settle-IsGuarded :
      (s : System) (torn : Option (List String)) (a : Answer) (before : List Job) (job : Job)
      (after : List Job)
      → s.working ≡ before ++ job ∷ after
      → IsGuarded lib s
      → IsGuarded lib (settle lib torn a before job after s)
  unfolding settle occurs
  settle-IsGuarded s torn a before job after e v =
      let p = s.pipeline in
      let p' = (settle lib torn a before job after s).pipeline in
      let key = dedupe_key_for_payload lib job in
      let works : All (Holds lib p) (before ++ job ∷ after) = subst (All (Holds lib p)) e v.works in
      let mine : Holds lib p job = (All-right (Holds lib p) before (job ∷ after) works).0 in
      let total : (id : String) → occurs id s.working ≡ occurs id before + occurs id (job ∷ after) =
        λ id. ap (λ l. occurs id l) e ∙ occurs-append id before (job ∷ after) in
      let move =
        All-released lib p p' key job.id mine.held
          (λ k ne. settled-others lib torn job a (job.kind == "download") p k ne) in
      record {
        cached = settled-cached lib torn job a (job.kind == "download") p v.cached;
        waits =
            move p.queue.queue (ground (arith, v.once job.id, total job.id, eq_refl job.id))
              v.waits;
        works =
            move (before ++ after)
              (ground (
                arith,
                v.once job.id,
                total job.id,
                occurs-append job.id before after,
                eq_refl job.id,
              ))
              (All-without (Holds lib p) before job after works);
        once = λ id. omega (arith, v.once id, total id, occurs-append id before after);
        plain = (mine.once_only, v.plain);
      }

  answer-IsGuarded :
      (s : System) (before : List (Job × TaskResult)) (job : Job) (res : TaskResult)
      (after : List (Job × TaskResult))
      → s.answered ≡ before ++ (job, res) ∷ after
      → IsGuarded lib s
      → IsGuarded lib (answer before job res after s)
  unfolding answer publish_result holder
  answer-IsGuarded s before job res after e v =
      let plain : All OnceOnly (before ++ (job, res) ∷ after) = subst (All OnceOnly) e v.plain in
      let mid = record s { answered = before ++ after } in
      IsGuarded-same lib mid (answer before job res after s) (λ k. refl) v.cached
        (finish-queue job res (publish_result res s.pipeline.queue)
          (All-right OnceOnly before ((job, res) ∷ after) plain).0)
        refl refl
        (record {
          cached = v.cached;
          waits = v.waits;
          works = v.works;
          once = v.once;
          plain = All-without OnceOnly before (job, res) after plain;
        })

  pub asked-holder :
      (os_error : Bool) (key k : String) (p : TaskPipeline)
      → holder k (record p { cache = asked lib os_error key p.cache }) ≡ holder k p
  unfolding holder is_duplicate
  asked-holder os_error key k p = by_cache p.cache
    where
      by_cache :
          (o : Option DownloadCache)
          → holder k (record p { cache = asked lib os_error key o })
            ≡ holder k (record p { cache = o })
      by_cache none = refl
      by_cache (some c) = ground (arith, check_disk-in_flight lib os_error key c)

  pub Step-IsGuarded : {s t : System} → Step lib s t → IsGuarded lib s → IsGuarded lib t
  unfolding leave ask close_queue end_wait close holder
  Step-IsGuarded (submits s e id now url media fresh) v =
      submit-IsGuarded lib s e id now url media fresh v
  Step-IsGuarded (leaves s job) v =
      IsGuarded-same lib s (leave job s) (λ k. refl) v.cached refl refl refl v
  Step-IsGuarded (asks s e key) v =
      IsGuarded-same lib s (ask lib e key s) (λ k. asked-holder e key k s.pipeline)
        (let (c, is) = v.cached in ((is_duplicate lib e key c).1, ap (asked lib e key) is)) refl
        refl refl v
  Step-IsGuarded (closes s) v =
      IsGuarded-same lib s (close_queue s) (λ k. refl) v.cached refl refl refl v
  Step-IsGuarded (takes s now idle) v = take_job-IsGuarded lib now s v
  Step-IsGuarded (settles s torn a before job after e) v =
      settle-IsGuarded s torn a before job after e v
  Step-IsGuarded (answers s before job res after e) v = answer-IsGuarded s before job res after e v

  pub Runs-IsGuarded : {s t : System} → Runs lib s t → IsGuarded lib s → IsGuarded lib t
  Runs-IsGuarded here v = v
  Runs-IsGuarded (next r st) v = Step-IsGuarded st (Runs-IsGuarded r v)

  -- From a new queue and a new cache on, whatever callers and workers do and in whatever order, at
  -- most one job of the queue or of a worker is for a given key, as long as the ids are new and no
  -- stale job is put back.
  pub no_double_download :
      (maxsize stale_after workers : ℕ) (has_index : Bool) (file : Option (List String))
      {t : System}
      → Runs lib
          (start
            (record { queue = init maxsize stale_after; cache = some (cache_init has_index file) })
            workers)
          t
      → (key : String) → with_key lib key t.pipeline.queue.queue + with_key lib key t.working ≤ 1
  unfolding occurs
  no_double_download maxsize stale_after workers has_index file {t} r key =
      let v = Runs-IsGuarded r (record {
        cached = (cache_init has_index file, refl);
        waits = tt;
        works = tt;
        once = λ id. omega arith;
        plain = tt;
      }) in
      with_key-held lib t.pipeline key t.pipeline.queue.queue t.working v.waits v.works v.once
