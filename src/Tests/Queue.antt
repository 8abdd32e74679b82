-- ===== src/Tests/Queue.antt =====
-- The theorems of `Queue` on concrete data.
use mix_saving_bot.Common.{
  ◌+◌, ◌≡◌, refl, false, none, some, List, [], ◌∷◌, arith, length, get_elem?, string_eq, nat_eq,
}
use mix_saving_bot.Queue.Manager.{
  Manager, init, waiting, result, enqueue, dequeue, acknowledge, put_nowait,
}
use mix_saving_bot.Queue.Bounds.{run, IsBounded, run-init-IsBounded, enqueues, dequeues, recovers}
use mix_saving_bot.Common.Dict.{get, put}
use mix_saving_bot.Queue.Fifo.{answers, fifo_answers, fifo_init}
use mix_saving_bot.Queue.Order.{manager-fifo}
use mix_saving_bot.Queue.Tasks.{Reach, start, acknowledge-Reach}
use mix_saving_bot.Queue.Counts.{occurs, entries}
use mix_saving_bot.Common.Exec.{ok}
use mix_saving_bot.Queue.Worker.{Processors, process, dispatch}
use mix_saving_bot.Queue.Retries.{process_wakes}
use mix_saving_bot.Queue.Exhaustion.{IsTried, rounds, rounds_exhaust}
use mix_saving_bot.Tests.Data.{queue_job}
use mix_saving_bot.Queue.Fifo
use mix_saving_bot.Queue.Tasks

-- a second job does not fit, and the first comes back after it is lost
run-init-IsBounded_example : IsBounded 1 (
    run
      (init 1 300)
      (enqueues (queue_job "a") ∷ enqueues (queue_job "b") ∷ dequeues 5 ∷ recovers 400 401 ∷ []))
run-init-IsBounded_example =
    run-init-IsBounded 1 300
      (enqueues (queue_job "a") ∷ enqueues (queue_job "b") ∷ dequeues 5 ∷ recovers 400 401 ∷ [])

abbrev waiting_manager : Manager
waiting_manager = record {
  queue = queue_job "a" ∷ [];
  unfinished = 1;
  maxsize = 1;
  waiters = ("a", 0) ∷ [];
  loop = waiting ∷ [];
  closed = false;
  in_flight = [];
  stale_after = 300;
  attempts = [];
}

abbrev no_processors : Processors
no_processors kind = none

process_wakes_example :
    (get_elem? (process no_processors (queue_job "a") waiting_manager).1.loop 0
      ≡ some (result (dispatch no_processors (queue_job "a"))))
    × ((dispatch no_processors (queue_job "a")).job_id ≡ "a")
unfolding get
process_wakes_example = process_wakes no_processors (queue_job "a") waiting_manager 0 refl refl

-- three attempts, and an idle round
rounds_exhaust_example :
    IsTried (queue_job "a") 3 (rounds no_processors (1 ∷ 2 ∷ 3 ∷ 4 ∷ []) waiting_manager)
unfolding dispatch get
rounds_exhaust_example =
    rounds_exhaust no_processors (queue_job "a") refl refl (1 ∷ 2 ∷ 3 ∷ 4 ∷ []) waiting_manager
      (omega arith) refl refl refl refl

abbrev fifo_ops : List Fifo.Op
fifo_ops =
    Fifo.enqueues (queue_job "a")
    ∷ Fifo.begins_wait (queue_job "b")
    ∷ Fifo.enqueues (queue_job "c")
    ∷ Fifo.dequeues 5
    ∷ Fifo.closes
    ∷ Fifo.enqueues (queue_job "d")
    ∷ Fifo.dequeues 6
    ∷ []

-- the third job does not fit, the fourth comes too late, and the first two are served in order
manager-fifo_example : answers (init 2 300) fifo_ops ≡ fifo_answers 2 fifo_init fifo_ops
manager-fifo_example = manager-fifo 2 300 fifo_ops

-- one job is taken, and another one waits
abbrev busy_manager : Manager
busy_manager = (dequeue 5 (enqueue (queue_job "b") (enqueue (queue_job "a") (init 2 300)).1).1).1

reached : Reach 2 300 busy_manager
unfolding enqueue put_nowait occurs entries
reached =
    Tasks.dequeues 5
      (Tasks.enqueues (queue_job "b") refl (Tasks.enqueues (queue_job "a") refl start))

acknowledge-Reach_example :
    let r = acknowledge (queue_job "a") busy_manager in
    (r.0 ≡ ok tt) × (r.1.unfinished ≡ length r.1.queue + length r.1.in_flight)
unfolding enqueue put_nowait dequeue get put
acknowledge-Reach_example = acknowledge-Reach (queue_job "a") (queue_job "a", 5) reached refl
