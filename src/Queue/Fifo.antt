-- ===== src/Queue/Fifo.antt =====
-- services/queue_manager.py against an abstract queue, which remembers every job that has arrived and
-- how many it has served.
use mix_saving_bot.Common.{
  ℕ, suc, ◌-◌, ◌≤◌, String, ◌≡◌, Bool, true, false, ◌&&◌, Option, none, some, List, [], ◌∷◌, ◌++◌,
  ltb, leb, if◌then◌else◌, length, get_elem?, drop,
}
use mix_saving_bot.Common.Exec.{Result, ok, raised}
use mix_saving_bot.Queue.Types.{Job, TaskResult}
use mix_saving_bot.Queue.Manager.{
  Exn, queue_closed, Manager, enqueue, dequeue, close, begin_wait, end_wait, acknowledge,
  publish_result, abandon_wait_if_pending,
}

pub data Op : Type 0 where
  enqueues begins_wait acknowledges ends_wait : Job → Op
  dequeues : ℕ → Op
  publishes : TaskResult → Op
  abandons : String → Op
  closes : Op

pub data Answer : Type 0 where
  accepted full refused : Answer
  -- a job, or `none` where the caller waits for one
  served : Option Job → Answer
  -- of the operations that do not touch the jobs that wait
  silent : Answer

abbrev pub answer_of : {A : Type 0} → Result Exn A → Answer
answer_of (ok a) = accepted
answer_of (raised queue_closed) = refused
answer_of (raised x) = full

-- an operation of the manager: its answer, and the state after it
unfoldable pub step : Manager → Op → Answer × Manager
unfolding enqueue begin_wait acknowledge end_wait dequeue publish_result abandon_wait_if_pending
    close
step m (enqueues job) = let (r, m') = enqueue job m in (answer_of r, m')
step m (begins_wait job) = let (r, m') = begin_wait job m in (answer_of r, m')
step m (acknowledges job) = (silent, (acknowledge job m).1)
step m (ends_wait job) = (silent, end_wait job m)
step m (dequeues now) = let (o, m') = dequeue now m in (served o, m')
step m (publishes res) = (silent, publish_result res m)
step m (abandons job_id) = (silent, abandon_wait_if_pending job_id m)
step m closes = (silent, close m)

unfoldable pub answers : Manager → List Op → List Answer
unfolding step
answers m [] = []
answers m (o ∷ os) = (step m o).0 ∷ answers (step m o).1 os

-- the abstract queue
pub record Fifo : Type 0 where
  pub arrived : List Job
  pub count : ℕ
  pub is_closed : Bool

abbrev pub fifo_init : Fifo
fifo_init = record { arrived = []; count = 0; is_closed = false }

module _ (bound : ℕ) where
  abbrev pub fifo_put : Job → Fifo → Answer × Fifo
  fifo_put job f =
      if f.is_closed
      then (refused, f)
      else if ltb 0 bound && leb bound (length f.arrived - f.count)
      then (full, f)
      else (accepted, record f { arrived = f.arrived ++ job ∷ [] })

  abbrev pub fifo_get : Fifo → Answer × Fifo
  fifo_get f =
      let o = get_elem? f.arrived f.count in
      (served o, record f { count = elim o [ none ↦ f.count | some job ↦ suc f.count ] })

  unfoldable pub fifo_step : Fifo → Op → Answer × Fifo
  fifo_step f (enqueues job) = fifo_put job f
  fifo_step f (begins_wait job) = fifo_put job f
  fifo_step f (dequeues now) = fifo_get f
  fifo_step f closes = (silent, record f { is_closed = true })
  fifo_step f _ = (silent, f)

  unfoldable pub fifo_answers : Fifo → List Op → List Answer
  unfolding fifo_step
  fifo_answers f [] = []
  fifo_answers f (o ∷ os) = (fifo_step f o).0 ∷ fifo_answers (fifo_step f o).1 os

  -- the jobs that wait are those that have arrived and have not been served
  pub record Refines (m : Manager) (f : Fifo) : Type 0 where
    pub waits : m.queue ≡ drop f.count f.arrived
    pub few : f.count ≤ length f.arrived
    pub same : m.maxsize ≡ bound
    pub closing : m.closed ≡ f.is_closed

  abbrev pub Simulates : Answer × Manager → Answer × Fifo → Type 0
  Simulates (a, m) (a', f) = (a ≡ a') × Refines m f
