-- ===== src/Pool/Later.antt =====
-- services/pipeline.py with the workers of the pool: requests after a completed download.
use mix_saving_bot.Common.{
  ℕ, String, ◌≡◌, refl, ◌∙◌, Bool, true, false, Option, none, some, List, arith, eq_iff,
  if◌then◌else◌, ◌==◌, string_eq, nat_eq,
}
use mix_saving_bot.Dedupe.Reservations.{step-completed}
use mix_saving_bot.Dedupe.Exclusion.{Op, step, elem-add}
use mix_saving_bot.Queue.Worker.{crashes, Answer, returns}
use mix_saving_bot.Pool.Entry.{HasCache}
use mix_saving_bot.Text.{elem}
use mix_saving_bot.Dedupe.Processor.{settle_job}
use mix_saving_bot.Common.Exec.{ok, raised, Result, then_do}
use mix_saving_bot.Queue.Types.{Job, TaskResult, completed}
use mix_saving_bot.Queue.Manager.{
  begin_wait, Manager, Exn as QueueExn, queue_closed, queue_overflow, value_error,
}
use mix_saving_bot.Dedupe.Cache.{
  try_reserve, Reservation, commit, abort, Exn as CacheExn, JsonLibrary, DownloadCache,
  append_disk_index, reserved, duplicate,
}
use mix_saving_bot.Dedupe.Pipeline.{
  make_job, duplicate_result, on_cache, key_of, abort_key, on_queue, reserve, begin, give_back,
  submit_download, enter, TaskPipeline, rejected,
}
use mix_saving_bot.Pool.System.{
  asked, Step, settled, take_job, dedupe_key_for_payload, close_queue, ask, Runs, answer, System,
  leave, submit, submits, leaves, asks, closes, takes, settles, answers, here, next, settle,
}

-- the cache knows that the resource has been fetched
unfoldable pub is_fetched : String → TaskPipeline → Bool
is_fetched key p = elim p.cache [ none ↦ false | some c ↦ elem key c.completed ]

module _ (key : String) where
  give_back-is_fetched :
      (k : String) (r : Result QueueExn ℕ × Manager) (p : TaskPipeline)
      → is_fetched key (give_back k (on_queue r p)).1 ≡ is_fetched key p
  unfolding is_fetched abort
  give_back-is_fetched k (ok fut, q) p = refl
  give_back-is_fetched k (raised queue_closed, q) p = refl
  give_back-is_fetched k (raised value_error, q) p = refl
  give_back-is_fetched k (raised queue_overflow, q) p = by_cache p.cache
    where
      by_cache :
          (o : Option DownloadCache)
          → is_fetched key (record { queue = q; cache = abort_key k o })
            ≡ is_fetched key (record { queue = q; cache = o })
      by_cache none = refl
      by_cache (some c) = refl

  then_enter-is_fetched :
      (k : String) (job : Job) (r : Result CacheExn Reservation × DownloadCache) (p : TaskPipeline)
      → is_fetched key (then_do (on_cache r p) (enter k job)).1 ≡ elem key r.1.completed
  unfolding enter begin is_fetched
  then_enter-is_fetched k job (ok reserved, c) p =
      give_back-is_fetched k (begin_wait job p.queue) (record p { cache = some c })
  then_enter-is_fetched k job (ok duplicate, c) p = refl
  then_enter-is_fetched k job (raised x, c) p = refl

  module _ (lib : JsonLibrary) where
    with_cache-is_fetched :
        (os_error : Bool) (id : String) (now : ℕ) (url media : String) (q : Manager)
        (o : Option DownloadCache)
        → let p : TaskPipeline = record { queue = q; cache = o } in
          is_fetched key p ≡ true
          → is_fetched key (submit_download lib os_error id now url media p).1 ≡ true
    unfolding submit_download reserve is_fetched step
    with_cache-is_fetched e id now url media q none h = cc
    with_cache-is_fetched e id now url media q (some c) h =
        let k = key_of lib url media in
        then_enter-is_fetched k (make_job id now url media) (try_reserve lib e k id c)
          (record { queue = q; cache = some c })
        ∙ step-completed lib key c (Op.reserves e k id) h

    settle_job-keeps :
        (torn : Option (List String)) (k : String) (a : Answer) (c : DownloadCache)
        → elem key c.completed ≡ true
        → elem key (settle_job lib torn k a c).completed ≡ true
    unfolding settle_job step
    settle_job-keeps torn k (returns res) c h = ground (
      arith,
      h,
      step-completed lib key c (Op.commits torn k) h,
      step-completed lib key c (Op.aborts k) h,
    )
    settle_job-keeps torn k (crashes tb) c h = h

    asked-is_fetched :
        (e : Bool) (k : String) (q : Manager) (o : Option DownloadCache)
        → is_fetched key (record { queue = q; cache = o }) ≡ true
        → is_fetched key (record { queue = q; cache = asked lib e k o }) ≡ true
    unfolding is_fetched step
    asked-is_fetched e k q none h = h
    asked-is_fetched e k q (some c) h = step-completed lib key c (Op.asks e k) h

    settled-is_fetched :
        (torn : Option (List String)) (job : Job) (a : Answer) (q : Manager) (b : Bool)
        (o : Option DownloadCache)
        → is_fetched key (record { queue = q; cache = o }) ≡ true
        → is_fetched key (record { queue = q; cache = if b then settled lib torn job a o else o })
          ≡ true
    unfolding is_fetched settle_job
    settled-is_fetched torn job a q false o h = h
    settled-is_fetched torn job a q true none h = h
    settled-is_fetched torn job a q true (some c) h =
        (settle_job-keeps torn (dedupe_key_for_payload lib job) a c h)

    Step-is_fetched :
        {s t : System}
        → Step lib s t
        → is_fetched key s.pipeline ≡ true
        → is_fetched key t.pipeline ≡ true
    unfolding submit leave ask close_queue take_job settle answer is_fetched
    Step-is_fetched (submits s e id now url media fresh) h =
        with_cache-is_fetched e id now url media s.pipeline.queue s.pipeline.cache h
    Step-is_fetched (leaves s job) h = h
    Step-is_fetched (asks s e k) h = asked-is_fetched e k s.pipeline.queue s.pipeline.cache h
    Step-is_fetched (closes s) h = h
    Step-is_fetched (takes s now idle) h = h
    Step-is_fetched (settles s torn a before job after e) h =
        settled-is_fetched torn job a s.pipeline.queue (job.kind == "download") s.pipeline.cache h
    Step-is_fetched (answers s before job res after e) h = h

    Runs-is_fetched :
        {s t : System}
        → Runs lib s t
        → is_fetched key s.pipeline ≡ true
        → is_fetched key t.pipeline ≡ true
    Runs-is_fetched here h = h
    Runs-is_fetched (next r st) h = Step-is_fetched st (Runs-is_fetched r h)

    settled-fetched :
        (torn : Option (List String)) (job : Job) (res : TaskResult) (p : TaskPipeline)
        → dedupe_key_for_payload lib job ≡ key
        → res.status ≡ completed
        → HasCache p
        → is_fetched key (record p { cache = settled lib torn job (returns res) p.cache }) ≡ true
    unfolding is_fetched settle_job commit append_disk_index
    settled-fetched torn job res p is_key fine (c, is) = ground (
      arith,
      is,
      fine,
      is_key,
      elem-add (dedupe_key_for_payload lib job) key c.completed,
      eq_iff key (dedupe_key_for_payload lib job),
    )

module _ (lib : JsonLibrary) where
  submit-rejected :
      (e : Bool) (id : String) (now : ℕ) (url media : String) (q : Manager)
      (o : Option DownloadCache)
      → let p : TaskPipeline = record { queue = q; cache = o } in
        let r = submit_download lib e id now url media p in
        is_fetched (key_of lib url media) p ≡ true
        → (r.0 ≡ ok (rejected (duplicate_result id (key_of lib url media)))) × (r.1.queue ≡ q)
  unfolding submit_download reserve try_reserve enter is_fetched
  submit-rejected e id now url media q none h = cc
  submit-rejected e id now url media q (some c) h = (rw h refl, rw h refl)

  -- Once the processor has returned a completed result for a job, a request for the same resource is
  -- answered as a duplicate and nothing is put in the queue, whatever callers, workers and the disk
  -- have done in between.
  pub completed_once :
      (s : System) (torn : Option (List String)) (res : TaskResult) (before : List Job) (job : Job)
      (after : List Job) {t : System}
      → job.kind ≡ "download"
      → res.status ≡ completed
      → HasCache s.pipeline
      → Runs lib (settle lib torn (returns res) before job after s) t
      → (e : Bool) (id : String) (now : ℕ) (url media : String)
      → dedupe_key_for_payload lib job ≡ key_of lib url media
      → let r = submit_download lib e id now url media t.pipeline in
        (r.0 ≡ ok (rejected (duplicate_result id (key_of lib url media))))
        × (r.1.queue ≡ t.pipeline.queue)
  unfolding settle
  completed_once s torn res before job after {t} kind fine cache r e id now url media is_key =
      let key = key_of lib url media in
      submit-rejected e id now url media t.pipeline.queue t.pipeline.cache (
        Runs-is_fetched key lib r (
          rw ((eq_iff job.kind "download").1 kind)
            (settled-fetched key lib torn job res s.pipeline is_key fine cache)))
