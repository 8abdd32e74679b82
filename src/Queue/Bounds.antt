-- ===== src/Queue/Bounds.antt =====
-- services/queue_manager.py: how many jobs the queue holds.
use mix_saving_bot.Common.{
  ℕ, suc, ◌≤◌, String, ◌≡◌, refl, ◌⊎◌, inl, inr, Bool, true, false, List, [], ◌∷◌, arith,
  if◌then◌else◌, Bool-cases, length, length-append,
}
use mix_saving_bot.Common.Exec.{Exec, Result, ok, raised, then_do}
use mix_saving_bot.Queue.Types.{Job, TaskResult}
use mix_saving_bot.Queue.Manager.{
  Exn, Manager, init, is_full, put_nowait, task_done, enqueue, dequeue, acknowledge, retry, nack,
  stale, fresh, requeue, requeue_all, recover_stale_tasks, close, begin_wait, end_wait,
  publish_result, abandon_wait_if_pending,
}

pub data Op : Type 0 where
  enqueues acknowledges nacks begins_wait ends_wait : Job → Op
  dequeues : ℕ → Op
  recovers : ℕ → ℕ → Op
  publishes : TaskResult → Op
  abandons : String → Op
  closes : Op

-- the state after an operation, whether it returns or raises
unfoldable pub step : Manager → Op → Manager
unfolding enqueue dequeue acknowledge nack recover_stale_tasks close begin_wait end_wait
    publish_result abandon_wait_if_pending
step m (enqueues job) = (enqueue job m).1
step m (acknowledges job) = (acknowledge job m).1
step m (nacks job) = (nack job m).1
step m (begins_wait job) = (begin_wait job m).1
step m (ends_wait job) = end_wait job m
step m (dequeues now) = (dequeue now m).1
step m (recovers now later) = (recover_stale_tasks now later m).1
step m (publishes res) = publish_result res m
step m (abandons job_id) = abandon_wait_if_pending job_id m
step m closes = close m

unfoldable pub run : Manager → List Op → Manager
unfolding step
run m [] = m
run m (o ∷ os) = run (step m o) os

-- the bound holds, and it is still the one that the queue was made with
pub record IsBounded (bound : ℕ) (m : Manager) : Type 0 where
  pub same : m.maxsize ≡ bound
  pub within : (bound ≡ 0) ⊎ (length m.queue ≤ bound)

module _ (bound : ℕ) where
  put_nowait-IsBounded :
      (job : Job) (m : Manager) → IsBounded bound m → IsBounded bound (put_nowait job m).1
  unfolding put_nowait
  put_nowait-IsBounded job m v = elim (Bool-cases (is_full m)) [
    | inl full ↦ rw full v
    | inr room ↦ rw room (record {
      same = v.same;
      within = ground (arith, v.same, length-append m.queue (job ∷ []), v.within);
    })
  ]

  enqueue-IsBounded :
      (job : Job) (m : Manager) → IsBounded bound m → IsBounded bound (enqueue job m).1
  unfolding enqueue
  enqueue-IsBounded job m v = record {
    same = ground (arith, v.same);
    within = ground (arith, v.same, length-append m.queue (job ∷ []), v.within);
  }

  dequeue-IsBounded :
      (now : ℕ) (m : Manager) → IsBounded bound m → IsBounded bound (dequeue now m).1
  unfolding dequeue
  dequeue-IsBounded now m v = record {
    same = ground (arith, v.same);
    within = ground (arith, v.within);
  }

  retry-IsBounded : (job : Job) (m : Manager) → IsBounded bound m → IsBounded bound (retry job m).1
  unfolding retry put_nowait
  retry-IsBounded job m v = record {
    same = ground (arith, v.same);
    within = ground (arith, v.same, length-append m.queue (job ∷ []), v.within);
  }

  then-IsBounded :
      {A B : Type 0} (r : Result Exn A × Manager) (f : A → Exec Exn Manager B)
      → IsBounded bound r.1
      → ((a : A) (m : Manager) → IsBounded bound m → IsBounded bound (f a m).1)
      → IsBounded bound (then_do r f).1
  then-IsBounded (ok a, m) f v k = k a m v
  then-IsBounded (raised x, m) f v k = v

  acknowledge-IsBounded :
      (job : Job) (m : Manager) → IsBounded bound m → IsBounded bound (acknowledge job m).1
  unfolding acknowledge task_done
  acknowledge-IsBounded job m v = record {
    same = ground (arith, v.same);
    within = ground (arith, v.within);
  }

  nack-IsBounded : (job : Job) (m : Manager) → IsBounded bound m → IsBounded bound (nack job m).1
  unfolding nack
  nack-IsBounded job m v =
      then-IsBounded (acknowledge job m) (λ _. retry job) (acknowledge-IsBounded job m v)
        (λ _. retry-IsBounded job)

  requeue-IsBounded :
      (later : ℕ) (job : Job) (m : Manager)
      → IsBounded bound m
      → IsBounded bound (requeue later job m).1
  unfolding requeue task_done
  requeue-IsBounded later job m v = record {
    same = ground (arith, v.same);
    within = ground (arith, v.same, length-append m.queue (job ∷ []), v.within);
  }

  choose-IsBounded :
      {A : Type 0} (b : Bool) (r s : Result Exn A × Manager)
      → IsBounded bound r.1
      → IsBounded bound s.1
      → IsBounded bound (if b then r else s).1
  choose-IsBounded true r s v w = v
  choose-IsBounded false r s v w = w

  requeue_all-IsBounded :
      (later n : ℕ) (jobs : List Job) (m : Manager)
      → IsBounded bound m
      → IsBounded bound (requeue_all later n jobs m).1
  unfolding requeue_all
  requeue_all-IsBounded later n [] m v = v
  requeue_all-IsBounded later n (job ∷ jobs) m v =
      choose-IsBounded m.closed (ok n, m)
        (then_do (requeue later job m) (λ _. requeue_all later (suc n) jobs)) v
        (then-IsBounded (requeue later job m) (λ _. requeue_all later (suc n) jobs)
          (requeue-IsBounded later job m v) (λ _. requeue_all-IsBounded later (suc n) jobs))

  recover_stale_tasks-IsBounded :
      (now later : ℕ) (m : Manager)
      → IsBounded bound m
      → IsBounded bound (recover_stale_tasks now later m).1
  unfolding recover_stale_tasks
  recover_stale_tasks-IsBounded now later m v =
      requeue_all-IsBounded later 0 (stale now m.stale_after m.in_flight)
        (record m { in_flight = fresh now m.stale_after m.in_flight })
        (record { same = v.same; within = v.within })

  begin_wait-IsBounded :
      (job : Job) (m : Manager) → IsBounded bound m → IsBounded bound (begin_wait job m).1
  unfolding begin_wait enqueue
  begin_wait-IsBounded job m v = record {
    same = ground (arith, v.same);
    within = ground (arith, v.same, length-append m.queue (job ∷ []), v.within);
  }

  step-IsBounded : (m : Manager) (o : Op) → IsBounded bound m → IsBounded bound (step m o)
  unfolding step end_wait publish_result abandon_wait_if_pending close
  step-IsBounded m (enqueues job) v = enqueue-IsBounded job m v
  step-IsBounded m (acknowledges job) v = acknowledge-IsBounded job m v
  step-IsBounded m (nacks job) v = nack-IsBounded job m v
  step-IsBounded m (begins_wait job) v = begin_wait-IsBounded job m v
  step-IsBounded m (ends_wait job) v = record { same = v.same; within = v.within }
  step-IsBounded m (dequeues now) v = dequeue-IsBounded now m v
  step-IsBounded m (recovers now later) v = recover_stale_tasks-IsBounded now later m v
  step-IsBounded m (publishes res) v = record { same = v.same; within = v.within }
  step-IsBounded m (abandons job_id) v = record { same = v.same; within = v.within }
  step-IsBounded m closes v = record { same = v.same; within = v.within }

  run-IsBounded : (m : Manager) (os : List Op) → IsBounded bound m → IsBounded bound (run m os)
  unfolding run
  run-IsBounded m [] v = v
  run-IsBounded m (o ∷ os) v = run-IsBounded (step m o) os (step-IsBounded m o v)

-- Whatever the callers and the workers do, and however often operations raise, the queue keeps the
-- bound `maxsize` it was made with and never holds more jobs than it; `maxsize` 0 is no bound.
pub run-init-IsBounded :
    (maxsize stale_after : ℕ) (os : List Op) → IsBounded maxsize (run (init maxsize stale_after) os)
run-init-IsBounded maxsize stale_after os =
    run-IsBounded maxsize (init maxsize stale_after) os
      (record { same = refl; within = inr (omega arith) })
