-- ===== src/Tests/Pool.antt =====
-- The theorems of `Pool` on concrete data.
use mix_saving_bot.Common.{
  ◌+◌, ◌≤◌, ◌≡◌, refl, inr, false, none, some, [], ◌∷◌, ◌++◌, arith, length, string_eq, nat_eq,
}
use mix_saving_bot.Pool.Stopping.{here, ends, Stops, stop_pool-start_pool}
use mix_saving_bot.Pool.Lifecycle.{
  failed, start_workers, WorkerPool, make_pool, start_pool, stop_pool, running,
}
use mix_saving_bot.Queue.Manager.{
  queue_closed, Manager, init as queue_init, stale, fresh, recover_stale_tasks,
}
use mix_saving_bot.Queue.Worker.{returns}
use mix_saving_bot.Pool.Tidy.{reserved_by_download, downloads}
use mix_saving_bot.Pool.Later.{completed_once}
use mix_saving_bot.Pool.Recovery.{recover_stale_tasks_lem}
use mix_saving_bot.Pool.Exclusion.{no_double_download}
use mix_saving_bot.Common.Dict.{get}
use mix_saving_bot.Common.Exec.{ok}
use mix_saving_bot.Queue.Types.{Job}
use mix_saving_bot.Queue.Counts.{occurs, entries}
use mix_saving_bot.Queue.Accounts.{IsAccounted}
use mix_saving_bot.Dedupe.Cache.{default_dedupe_key, init as cache_init}
use mix_saving_bot.Dedupe.Pipeline.{
  TaskPipeline, make_job, key_of, submit_download, rejected, duplicate_result,
}
use mix_saving_bot.Dedupe.Entry.{holder}
use mix_saving_bot.Pool.System.{
  text_of, dedupe_key_for_payload, System, Runs, submit, take_job, start, submits, takes, settle,
  here, next,
}
use mix_saving_bot.Pool.Guard.{with_key}
use mix_saving_bot.Pool.Leaks.{CalmRuns}
use mix_saving_bot.Pool.Smoke.{mock_download}
use mix_saving_bot.Tests.Dedupe.{json_library}

abbrev empty_pipeline : TaskPipeline
empty_pipeline = record { queue = queue_init 8 30; cache = some (cache_init false none) }

abbrev first : System
first = submit json_library false "j1" 0 "u" "audio" (start empty_pipeline 2)

abbrev taken : System
taken = take_job 1 first

-- the first submission, and a worker that takes its job
runs : Runs json_library (start empty_pipeline 2) taken
unfolding occurs submit
runs =
    next (next here (submits (start empty_pipeline 2) false "j1" 0 "u" "audio" refl))
      (takes first 1 (omega arith))

calm_runs : CalmRuns json_library (start empty_pipeline 2) taken
unfolding occurs submit
calm_runs =
    CalmRuns.next
      (CalmRuns.next CalmRuns.here (submits (start empty_pipeline 2) false "j1" 0 "u" "audio" refl)
        refl)
      (takes first 1 (omega arith)) refl

no_double_download_example :
    with_key json_library (key_of json_library "u" "audio") taken.pipeline.queue.queue
      + with_key json_library (key_of json_library "u" "audio") taken.working
    ≤ 1
no_double_download_example =
    no_double_download json_library 8 30 2 false none runs (key_of json_library "u" "audio")

reserved_by_download_example :
    with_key json_library (key_of json_library "u" "audio") taken.pipeline.queue.queue
      + with_key json_library (key_of json_library "u" "audio") taken.working
    ≡ downloads (holder (key_of json_library "u" "audio") taken.pipeline)
reserved_by_download_example =
    reserved_by_download json_library 8 30 2 false none calm_runs (key_of json_library "u" "audio")

abbrev job_one : Job
job_one = make_job "j1" 0 "u" "audio"

abbrev settled_one : System
settled_one = settle json_library none (returns (mock_download job_one)) [] job_one [] taken

completed_once_example :
    let r = submit_download json_library false "j2" 9 "u" "audio" settled_one.pipeline in
    (r.0 ≡ ok (rejected (duplicate_result "j2" (key_of json_library "u" "audio"))))
    × (r.1.queue ≡ settled_one.pipeline.queue)
unfolding submit take_job mock_download dedupe_key_for_payload text_of get default_dedupe_key
completed_once_example =
    completed_once json_library taken none (mock_download job_one) [] job_one [] refl refl (_, refl)
      here false "j2" 9 "u" "audio" refl

-- a manager with one job that has been in flight for too long
abbrev slow : Manager
slow = record (queue_init 8 30) { unfinished = 1; in_flight = ("j1", (job_one, 5)) ∷ [] }

slow-IsAccounted : IsAccounted slow
unfolding occurs entries
slow-IsAccounted = record { sum = refl; once = λ id. ground arith }

recover_stale_tasks_lem_example : recover_stale_tasks 100 101 slow ≡ (
  ok (length (stale 100 30 slow.in_flight)),
  record slow {
    queue = slow.queue ++ stale 100 30 slow.in_flight;
    in_flight = fresh 100 30 slow.in_flight;
  },
)
unfolding stale
recover_stale_tasks_lem_example =
    recover_stale_tasks_lem 100 101 slow slow-IsAccounted refl (inr (omega arith))

abbrev idle_pool : WorkerPool
idle_pool = make_pool (queue_init 8 30) 3

-- the recovery loop has failed as the queue was closed
abbrev failing_pool : WorkerPool
failing_pool = record (start_pool idle_pool) {
  loop = running ∷ running ∷ running ∷ failed queue_closed ∷ [];
}

stop_pool-start_pool_example :
    (length failing_pool.tasks ≡ 3) × Stops failing_pool (stop_pool failing_pool)
unfolding start_pool start_workers
stop_pool-start_pool_example =
    stop_pool-start_pool idle_pool failing_pool (record { known = λ i h. cc h }) refl
      (ends 3 (failed queue_closed) (start_pool idle_pool) failing_pool refl (λ e. cc e)
        (here failing_pool))
