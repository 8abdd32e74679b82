-- ===== src/Queue/Exhaustion.antt =====
-- services/worker.py and services/queue_manager.py: how often a job that always fails is tried.
use mix_saving_bot.Common.{
  ℕ, suc, ◌+◌, ◌≤◌, ◌<◌, min, ◌≡◌, inl, inr, true, false, none, List, [], ◌∷◌, arith, eq_iff, ltb,
  if◌then◌else◌, Bool-cases, length, string_eq, nat_eq,
}
use mathlib.Core.Path.{subst}
use mix_saving_bot.Common.Dict.{get, get-put}
use mix_saving_bot.Queue.Types.{Job}
use mix_saving_bot.Queue.Manager.{
  put_nowait, retry, task_done, nack, acknowledge, publish_result, dequeue, Manager, attempts_of,
}
use mix_saving_bot.Queue.Worker.{is_settled, Processors, round, dispatch, finish, process}

-- the rounds of one worker, with the readings of the clock
unfoldable pub rounds : Processors → List ℕ → Manager → Manager
unfolding round
rounds processors [] m = m
rounds processors (now ∷ nows) m = rounds processors nows (round processors now m).1

-- the job is in the queue for its next attempt, or it is gone
pub record IsTried (job : Job) (n : ℕ) (m : Manager) : Type 0 where
  pub queued : m.queue ≡ (if ltb n job.max_attempts then job ∷ [] else [])
  pub counted : attempts_of job m ≡ n
  pub is_open : m.closed ≡ false
  pub tasks : m.unfinished ≡ (if ltb n job.max_attempts then 1 else 0)

module _ (processors : Processors) (job : Job)
    (fails : is_settled (dispatch processors job).status ≡ false)
    (retries : job.retry_on_failure ≡ true) where
  round-IsTried :
      (now n : ℕ) (m : Manager)
      → n < job.max_attempts
      → IsTried job n m
      → IsTried job (suc n) (round processors now m).1
  unfolding round process finish dequeue publish_result acknowledge nack task_done retry put_nowait
      attempts_of
  round-IsTried now n m l v = record {
    queued = ground (arith, fails, retries, l, v.queued, v.counted, v.is_open, v.tasks);
    counted = ground (
      arith,
      fails,
      retries,
      l,
      v.queued,
      v.counted,
      v.is_open,
      v.tasks,
      get-put job.id job.id (suc n) m.attempts,
      eq_iff job.id job.id,
    );
    is_open = ground (arith, fails, retries, l, v.queued, v.counted, v.is_open, v.tasks);
    tasks = ground (arith, fails, retries, l, v.queued, v.counted, v.is_open, v.tasks);
  }

  -- an empty queue: the worker waits
  round-idle : (now : ℕ) (m : Manager) → m.queue ≡ [] → (round processors now m).1 ≡ m
  unfolding round dequeue
  round-idle now m e = ground (arith, e)

  rounds-IsTried :
      (n : ℕ) (nows : List ℕ) (m : Manager)
      → n ≤ job.max_attempts
      → IsTried job n m
      → IsTried job (min (n + length nows) job.max_attempts) (rounds processors nows m)
  unfolding rounds
  rounds-IsTried n [] m l v = subst (λ k. IsTried job k m) (omega (arith, l)) v
  rounds-IsTried n (now ∷ nows) m l v = elim (Bool-cases (ltb n job.max_attempts)) [
    | inl more ↦
        subst (λ k. IsTried job k (rounds processors nows (round processors now m).1)) (omega arith)
          (rounds-IsTried (suc n) nows (round processors now m).1 (ground (arith, more))
            (round-IsTried now n m (ground (arith, more)) v))
    | inr over ↦ rw (round-idle now m (ground (arith, v.queued, over))) (
        subst (λ k. IsTried job k (rounds processors nows m)) (ground (arith, over, l))
          (rounds-IsTried n nows m l v))
  ]

  -- A job whose runs always fail, alone in an open queue and to be retried, with `max_attempts` at
  -- least 1: after any number of rounds of the worker, it has been tried as many times, but at most
  -- `max_attempts` times; until then it is in the queue for its next attempt, and afterwards the
  -- queue is empty and no task is left unfinished.
  pub rounds_exhaust :
      (nows : List ℕ) (m : Manager)
      → 0 < job.max_attempts
      → m.queue ≡ job ∷ []
      → get job.id m.attempts ≡ none
      → m.closed ≡ false
      → m.unfinished ≡ 1
      → IsTried job (min (length nows) job.max_attempts) (rounds processors nows m)
  unfolding attempts_of
  rounds_exhaust nows m l q a c u =
      subst (λ k. IsTried job k (rounds processors nows m)) (omega arith)
        (rounds-IsTried 0 nows m (omega (arith, l)) (record {
          queued = ground (arith, q, l);
          counted = ground (arith, a);
          is_open = c;
          tasks = ground (arith, u, l);
        }))
