-- ===== src/Pool/System.antt =====
-- services/pipeline.py, services/worker.py and services/remote_backend.py together: callers that submit
-- downloads, and the workers of a pool that take them, run `build_download_processor`, and publish
-- what it answers. Other tasks run between any two of these steps. Stale jobs are not put back here.
use mix_saving_bot.Common.{
  ℕ, ◌+◌, ◌<◌, max, String, ◌≡◌, Bool, Option, none, some, List, [], ◌∷◌, ◌++◌, if◌then◌else◌, ◌==◌,
  length, string_eq, nat_eq,
}
use mix_saving_bot.Common.Dict.{get}
use mix_saving_bot.Dedupe.Processor.{settle_job}
use mix_saving_bot.Queue.Counts.{occurs}
use mix_saving_bot.Queue.Types.{text, TaskResult, Job}
use mix_saving_bot.Dedupe.Cache.{DownloadCache, default_dedupe_key, JsonLibrary, is_duplicate}
use mix_saving_bot.Dedupe.Pipeline.{submit_download, TaskPipeline}
use mix_saving_bot.Queue.Manager.{publish_result, close, end_wait, dequeue}
use mix_saving_bot.Queue.Worker.{Processors, Answer, finish, dispatch}

-- the value of a payload as the text that stands in the key; a payload of the pipeline has texts only
unfoldable pub text_of : String → Job → Option String
text_of name job = elim (get name job.payload) [ some (text s) ↦ some s | _ ↦ none ]

-- cache.dedupe_key_for_payload(job.payload)
unfoldable pub dedupe_key_for_payload : JsonLibrary → Job → String
unfolding text_of
dedupe_key_for_payload lib job =
    default_dedupe_key lib (text_of "url" job) (text_of "source_url" job) (text_of "mix_id" job)
      (text_of "media" job)

pub record System : Type 0 where
  pub pipeline : TaskPipeline
  -- WorkerPool.workers
  pub workers : ℕ
  -- the jobs whose processor is running, and those whose result is not yet published
  pub working : List Job
  pub answered : List (Job × TaskResult)

-- self.workers = max(1, workers)
abbrev pub start : TaskPipeline → ℕ → System
start p workers = record { pipeline = p; workers = max 1 workers; working = []; answered = [] }

unfoldable pub submit : JsonLibrary → Bool → String → ℕ → String → String → System → System
unfolding submit_download
submit lib os_error id now url media s = record s {
  pipeline = (submit_download lib os_error id now url media s.pipeline).1;
}

-- the `finally` of `enqueue_and_wait`, after a result, a timeout or a cancellation
unfoldable pub leave : Job → System → System
unfolding end_wait
leave job s = record s { pipeline = record s.pipeline { queue = end_wait job s.pipeline.queue } }

-- `is_duplicate` for a reader of the cache
abbrev pub asked : JsonLibrary → Bool → String → Option DownloadCache → Option DownloadCache
asked lib os_error key none = none
asked lib os_error key (some c) = some (is_duplicate lib os_error key c).1

unfoldable pub ask : JsonLibrary → Bool → String → System → System
unfolding is_duplicate
ask lib os_error key s = record s {
  pipeline = record s.pipeline { cache = asked lib os_error key s.pipeline.cache };
}

unfoldable pub close_queue : System → System
unfolding close
close_queue s = record s { pipeline = record s.pipeline { queue = close s.pipeline.queue } }

abbrev pub joined : Option Job → List Job → List Job
joined none jobs = jobs
joined (some job) jobs = job ∷ jobs

-- an idle worker: job = await self.queue.dequeue()
unfoldable pub take_job : ℕ → System → System
unfolding dequeue
take_job now s =
    let (next, q) = dequeue now s.pipeline.queue in
    record s { pipeline = record s.pipeline { queue = q }; working = joined next s.working }

-- the map of the processors
abbrev pub processors : Answer → Processors
processors a kind = if kind == "download" then some (λ job. a) else none

abbrev pub settled :
    JsonLibrary → Option (List String) → Job → Answer → Option DownloadCache → Option DownloadCache
settled lib torn job a none = none
settled lib torn job a (some c) = some (settle_job lib torn (dedupe_key_for_payload lib job) a c)

-- the processor of `job`, which works for some worker, ends with `a`
unfoldable pub settle :
    JsonLibrary → Option (List String) → Answer → List Job → Job → List Job → System → System
unfolding dispatch
settle lib torn a before job after s = record s {
  pipeline = record s.pipeline {
    cache =
        if job.kind == "download"
        then settled lib torn job a s.pipeline.cache
        else s.pipeline.cache;
  };
  working = before ++ after;
  answered = (job, dispatch (processors a) job) ∷ s.answered;
}

-- the rest of the worker's round
unfoldable pub answer :
    List (Job × TaskResult) → Job → TaskResult → List (Job × TaskResult) → System → System
unfolding finish publish_result
answer before job res after s = record s {
  pipeline = record s.pipeline { queue = (finish job res (publish_result res s.pipeline.queue)).1 };
  answered = before ++ after;
}

-- One step of a caller or a worker. A new job has an id that no waiting or running job has.
pub data Step (lib : JsonLibrary) : System → System → Type 0 where
  submits :
      (s : System) (os_error : Bool) (id : String) (now : ℕ) (url media : String)
      → occurs id s.pipeline.queue.queue + occurs id s.working ≡ 0
      → Step lib s (submit lib os_error id now url media s)
  leaves : (s : System) (job : Job) → Step lib s (leave job s)
  asks : (s : System) (os_error : Bool) (key : String) → Step lib s (ask lib os_error key s)
  closes : (s : System) → Step lib s (close_queue s)
  takes :
      (s : System) (now : ℕ)
      → length s.working + length s.answered < s.workers
      → Step lib s (take_job now s)
  settles :
      (s : System) (torn : Option (List String)) (a : Answer) (before : List Job) (job : Job)
      (after : List Job)
      → s.working ≡ before ++ job ∷ after
      → Step lib s (settle lib torn a before job after s)
  answers :
      (s : System) (before : List (Job × TaskResult)) (job : Job) (res : TaskResult)
      (after : List (Job × TaskResult))
      → s.answered ≡ before ++ (job, res) ∷ after
      → Step lib s (answer before job res after s)

-- any number of steps
pub data Runs (lib : JsonLibrary) (s : System) : System → Type 0 where
  here : Runs lib s s
  next : {t u : System} → Runs lib s t → Step lib t u → Runs lib s u
