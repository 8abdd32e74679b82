-- ===== src/Queue/Tasks.antt =====
-- services/queue_manager.py: the count of unfinished tasks, after any calls. A step stands for one
-- call; the recovery of stale jobs is none of them.
use mix_saving_bot.Common.{ℕ, ◌+◌, ◌≡◌, refl, some, arith, length, string_eq, nat_eq}
use mix_saving_bot.Queue.Accounts.{
  IsAccounted, enqueue-IsAccounted, dequeue-IsAccounted, acknowledge-IsAccounted, nack-IsAccounted,
}
use mix_saving_bot.Queue.Counts.{occurs, entries}
use mix_saving_bot.Common.Dict.{get}
use mix_saving_bot.Common.Exec.{ok}
use mix_saving_bot.Queue.Types.{Job, TaskResult}
use mix_saving_bot.Queue.Manager.{
  Manager, init, enqueue, dequeue, acknowledge, nack, close, publish_result,
}

-- the calls, from a new manager on
pub data Reach (maxsize stale_after : ℕ) : Manager → Type 0 where
  start : Reach maxsize stale_after (init maxsize stale_after)
  enqueues :
      {m : Manager} (job : Job)
      → occurs job.id m.queue + entries job.id m.in_flight ≡ 0
      → Reach maxsize stale_after m
      → Reach maxsize stale_after (enqueue job m).1
  dequeues :
      {m : Manager} (now : ℕ)
      → Reach maxsize stale_after m
      → Reach maxsize stale_after (dequeue now m).1
  acknowledges :
      {m : Manager} (job : Job) (entry : Job × ℕ)
      → get job.id m.in_flight ≡ some entry
      → Reach maxsize stale_after m
      → Reach maxsize stale_after (acknowledge job m).1
  nacks :
      {m : Manager} (job : Job) (entry : Job × ℕ)
      → get job.id m.in_flight ≡ some entry
      → Reach maxsize stale_after m
      → Reach maxsize stale_after (nack job m).1
  publishes :
      {m : Manager} (res : TaskResult)
      → Reach maxsize stale_after m
      → Reach maxsize stale_after (publish_result res m)
  closes : {m : Manager} → Reach maxsize stale_after m → Reach maxsize stale_after (close m)

module _ {maxsize stale_after : ℕ} where
  -- As long as only jobs in flight are acknowledged or given back and ids are new, the unfinished
  -- tasks are the jobs of the queue and those in flight, each of which is there once.
  Reach-IsAccounted : {m : Manager} → Reach maxsize stale_after m → IsAccounted m
  unfolding occurs entries publish_result close
  Reach-IsAccounted start = record { sum = refl; once = λ id. omega arith }
  Reach-IsAccounted (enqueues {m} job fresh r) =
      enqueue-IsAccounted job m fresh (Reach-IsAccounted r)
  Reach-IsAccounted (dequeues {m} now r) = dequeue-IsAccounted now m (Reach-IsAccounted r)
  Reach-IsAccounted (acknowledges {m} job entry here r) =
      (acknowledge-IsAccounted job entry m here (Reach-IsAccounted r)).1
  Reach-IsAccounted (nacks {m} job entry here r) =
      nack-IsAccounted job entry m here (Reach-IsAccounted r)
  Reach-IsAccounted (publishes {m} res r) =
      let a = Reach-IsAccounted r in record { sum = a.sum; once = a.once }
  Reach-IsAccounted (closes {m} r) =
      let a = Reach-IsAccounted r in record { sum = a.sum; once = a.once }

  -- The acknowledgement of a job in flight never raises, after any such calls, and the unfinished
  -- tasks are then still the jobs of the queue and those in flight.
  pub acknowledge-Reach :
      {m : Manager} (job : Job) (entry : Job × ℕ)
      → Reach maxsize stale_after m
      → get job.id m.in_flight ≡ some entry
      → ((acknowledge job m).0 ≡ ok tt)
        × ((acknowledge job m).1.unfinished
            ≡ length (acknowledge job m).1.queue + length (acknowledge job m).1.in_flight)
  acknowledge-Reach {m} job entry r here =
      let (fine, a) = acknowledge-IsAccounted job entry m here (Reach-IsAccounted r) in
      (fine, a.sum)
