-- ===== src/Pool/Lifecycle.antt =====
-- services/worker.py: `WorkerPool`, the tasks that it starts and cancels, and the loop that puts stale
-- jobs back. The tasks of the event loop are a list, which the pool knows by position.
use mix_saving_bot.Common.{
  ℕ, zero, suc, max, Bool, true, false, Option, none, some, List, [], ◌∷◌, ◌++◌, if◌then◌else◌,
  length, get_elem?,
}
use mix_saving_bot.Common.Exec.{then_do, Exec, ok, raised, Result}
use mix_saving_bot.Queue.Manager.{Manager, Exn, queue_overflow, recover_stale_tasks, close}

pub data Task : Type 0 where
  running ended cancelled : Task
  -- it has ended with an exception
  failed : Exn → Task

pub record WorkerPool : Type 0 where
  pub queue : Manager
  pub workers : ℕ
  pub tasks : List ℕ
  pub recovery_task : Option ℕ
  pub stopped : Bool
  pub loop : List Task

-- self.workers = max(1, workers)
abbrev pub make_pool : Manager → ℕ → WorkerPool
make_pool q workers = record {
  queue = q;
  workers = max 1 workers;
  tasks = [];
  recovery_task = none;
  stopped = false;
  loop = [];
}

-- asyncio.create_task(w.run()), for each worker
unfoldable pub start_workers : ℕ → WorkerPool → WorkerPool
start_workers zero p = p
start_workers (suc n) p =
    start_workers n
      (record p { tasks = p.tasks ++ length p.loop ∷ []; loop = p.loop ++ running ∷ [] })

unfoldable pub start_pool : WorkerPool → WorkerPool
unfolding start_workers
start_pool p =
    let p' = start_workers p.workers (record p { stopped = false }) in
    record p' { recovery_task = some (length p'.loop); loop = p'.loop ++ running ∷ [] }

-- task.cancel(), and waiting for its end
abbrev pub stop_task : Task → Task
stop_task running = cancelled
stop_task t = t

unfoldable pub cancel : ℕ → List Task → List Task
cancel i [] = []
cancel zero (t ∷ ts) = stop_task t ∷ ts
cancel (suc i) (t ∷ ts) = t ∷ cancel i ts

unfoldable pub cancel_all : List ℕ → List Task → List Task
unfolding cancel
cancel_all [] loop = loop
cancel_all (i ∷ is) loop = cancel_all is (cancel i loop)

abbrev pub cancel_recovery : Option ℕ → List Task → List Task
cancel_recovery none loop = loop
cancel_recovery (some i) loop = cancel i loop

-- `await` on a task that has ended, with its cancellation suppressed
abbrev pub end_of : Option Task → Result Exn (Unit {0})
end_of (some (failed x)) = raised x
end_of _ = ok tt

-- `await self._recovery_task`
abbrev pub awaited : Option ℕ → List Task → Result Exn (Unit {0})
awaited none loop = ok tt
awaited (some i) loop = end_of (get_elem? loop i)

-- an exception of the recovery loop leaves before any worker is cancelled
unfoldable pub stop_pool : Exec Exn WorkerPool (Unit {0})
unfolding cancel_all close
stop_pool p =
    let loop = cancel_recovery p.recovery_task p.loop in
    let p' = record p { stopped = true; queue = close p.queue; loop = loop } in
    elim (awaited p.recovery_task loop) [
      | raised x ↦ (raised x, p')
      | ok _ ↦
          (ok tt, record p' { loop = cancel_all p.tasks loop; recovery_task = none; tasks = [] })
    ]

-- what a round of the loop makes of the recovery: an overflow is logged
unfoldable pub survived : Result Exn ℕ × Manager → Result Exn (Unit {0}) × Manager
survived (raised queue_overflow, q) = (ok tt, q)
survived (raised x, q) = (raised x, q)
survived (ok n, q) = (ok tt, q)

-- `_recover_loop`, by what each round reads: the test of the stop event, and two times
unfoldable pub recover_loop : List (Bool × ℕ × ℕ) → Exec Exn Manager (Unit {0})
unfolding survived
recover_loop [] q = (ok tt, q)
recover_loop ((stop, now, later) ∷ rounds) q =
    if stop
    then (ok tt, q)
    else then_do (survived (recover_stale_tasks now later q)) (λ u. recover_loop rounds)
