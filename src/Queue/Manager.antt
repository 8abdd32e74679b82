-- ===== src/Queue/Manager.antt =====
-- services/queue_manager.py: `JobQueueManager`. Each method is an action that may raise; `now` is a
-- reading of `time.monotonic()`. The `asyncio.Queue` is the list of its items with the number of
-- unfinished tasks, and `maxsize` 0 means no bound.
use mix_saving_bot.Common.{
  ℕ, zero, suc, ◌-◌, String, Bool, true, false, ◌&&◌, ◌||◌, Option, none, some, List, [], ◌∷◌, ◌++◌,
  ltb, leb, if◌then◌else◌, length, get_elem?, set, string_eq, nat_eq,
}
use mix_saving_bot.Common.Dict.{Dict, get, put, remove}
use mix_saving_bot.Common.Exec.{Exec, ok, raised, pure, ◌>>◌}
use mix_saving_bot.Queue.Types.{Job, TaskResult}

pub data Exn : Type 0 where
  queue_closed queue_overflow value_error : Exn

-- an `asyncio.Future[TaskResult]`
pub data Future : Type 0 where
  waiting : Future
  result : TaskResult → Future
  cancelled : Future

pub record Manager : Type 0 where
  pub queue : List Job
  pub unfinished : ℕ
  pub maxsize : ℕ
  pub waiters : Dict String ℕ
  pub loop : List Future
  pub closed : Bool
  pub in_flight : Dict String (Job × ℕ)
  pub stale_after : ℕ
  pub attempts : Dict String ℕ

abbrev pub init : ℕ → ℕ → Manager
init maxsize stale_after = record {
  queue = [];
  unfinished = 0;
  maxsize = maxsize;
  waiters = [];
  loop = [];
  closed = false;
  in_flight = [];
  stale_after = stale_after;
  attempts = [];
}

-- asyncio.Queue.full
abbrev pub is_full : Manager → Bool
is_full m = ltb 0 m.maxsize && leb m.maxsize (length m.queue)

abbrev pub pending_qsize : Manager → ℕ
pending_qsize m = length m.queue

abbrev pub in_flight_count : Manager → ℕ
in_flight_count m = length m.in_flight

-- asyncio.Queue.put_nowait; a full queue raises
unfoldable pub put_nowait : Job → Exec Exn Manager (Unit {0})
put_nowait job m =
    if is_full m
    then (raised queue_overflow, m)
    else (ok tt, record m { queue = m.queue ++ job ∷ []; unfinished = suc m.unfinished })

-- asyncio.Queue.task_done
unfoldable pub task_done : Exec Exn Manager (Unit {0})
task_done m = elim m.unfinished [
  | zero ↦ (raised value_error, m)
  | suc n ↦ (ok tt, record m { unfinished = n })
]

unfoldable pub enqueue : Job → Exec Exn Manager (Unit {0})
unfolding put_nowait
enqueue job m = if m.closed then (raised queue_closed, m) else put_nowait job m

-- `none` where `get` waits for an item
unfoldable pub dequeue : ℕ → Manager → Option Job × Manager
dequeue now m = elim m.queue [
  | [] ↦ (none, m)
  | job ∷ rest ↦
      (some job, record m { queue = rest; in_flight = put job.id (job, now) m.in_flight })
]

abbrev pub drop_flight : Job → Manager → Manager
drop_flight job m = record m { in_flight = remove job.id m.in_flight }

unfoldable pub acknowledge : Job → Exec Exn Manager (Unit {0})
unfolding task_done
acknowledge job m = task_done (drop_flight job m)

unfoldable pub attempts_of : Job → Manager → ℕ
attempts_of job m = elim (get job.id m.attempts) [ none ↦ 0 | some n ↦ n ]

-- job.attempts += 1, and the tests that follow
unfoldable pub retry : Job → Exec Exn Manager Bool
unfolding put_nowait attempts_of
retry job m =
    let n = suc (attempts_of job m) in
    let m' = record m { attempts = put job.id n m.attempts } in
    if leb job.max_attempts n || m.closed then (ok false, m') else (do put_nowait job; pure true) m'

unfoldable pub nack : Job → Exec Exn Manager Bool
unfolding acknowledge retry
nack job = do acknowledge job; retry job

-- the first loop of `recover_stale_tasks`: the entries that stay, and the jobs that are too old
unfoldable pub stale : ℕ → ℕ → Dict String (Job × ℕ) → List Job
stale now limit [] = []
stale now limit ((_, (job, started)) ∷ rest) =
    let more = stale now limit rest in if ltb limit (now - started) then job ∷ more else more

unfoldable pub fresh : ℕ → ℕ → Dict String (Job × ℕ) → Dict String (Job × ℕ)
fresh now limit [] = []
fresh now limit ((id, (job, started)) ∷ rest) =
    let more = fresh now limit rest in
    if ltb limit (now - started) then more else (id, (job, started)) ∷ more

-- one round of the second loop: a full queue puts the job back in flight
unfoldable pub requeue : ℕ → Job → Exec Exn Manager (Unit {0})
unfolding task_done
requeue later job = do
  task_done
  λ m.
      if is_full m
      then (raised queue_overflow, record m { in_flight = put job.id (job, later) m.in_flight })
      else (ok tt, record m { queue = m.queue ++ job ∷ []; unfinished = suc m.unfinished })

unfoldable pub requeue_all : ℕ → ℕ → List Job → Exec Exn Manager ℕ
unfolding requeue
requeue_all later n [] m = (ok n, m)
requeue_all later n (job ∷ jobs) m =
    if m.closed then (ok n, m) else (do requeue later job; requeue_all later (suc n) jobs) m

unfoldable pub recover_stale_tasks : ℕ → ℕ → Exec Exn Manager ℕ
unfolding stale fresh requeue_all
recover_stale_tasks now later m =
    requeue_all later 0 (stale now m.stale_after m.in_flight)
      (record m { in_flight = fresh now m.stale_after m.in_flight })

unfoldable pub close : Manager → Manager
close m = record m { closed = true }

-- `enqueue_and_wait` up to its wait: the waiter stands before the job enters the queue, and is taken
-- back if the queue refuses the job
unfoldable pub begin_wait : Job → Exec Exn Manager ℕ
unfolding enqueue
begin_wait job m =
    let fut = length m.loop in
    let m' = record m { waiters = put job.id fut m.waiters; loop = m.loop ++ waiting ∷ [] } in
    let (r, m'') = enqueue job m' in
    elim r [
      | ok _ ↦ (ok fut, m'')
      | raised x ↦ (raised x, record m'' { waiters = remove job.id m''.waiters })
    ]

-- its `finally`
unfoldable pub end_wait : Job → Manager → Manager
end_wait job m = record m { waiters = remove job.id m.waiters }

-- set the future of a waiter that is not done
abbrev pub settle : Future → Option ℕ → List Future → List Future
settle f none loop = loop
settle f (some fut) loop = elim (get_elem? loop fut) [ some waiting ↦ set loop fut f | _ ↦ loop ]

unfoldable pub publish_result : TaskResult → Manager → Manager
publish_result res m = record m {
  waiters = remove res.job_id m.waiters;
  loop = settle (result res) (get res.job_id m.waiters) m.loop;
}

unfoldable pub abandon_wait_if_pending : String → Manager → Manager
abandon_wait_if_pending job_id m = record m {
  waiters = remove job_id m.waiters;
  loop = settle cancelled (get job_id m.waiters) m.loop;
}
