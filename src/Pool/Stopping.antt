-- ===== src/Pool/Stopping.antt =====
-- services/worker.py: what `WorkerPool.stop` leaves of the tasks of the pool.
use mix_saving_bot.Common.{
  ℕ, zero, suc, ◌+◌, ◌≡◌, refl, ap, ◌∙◌, ◌≢◌, ◌⊎◌, inl, inr, true, false, Option, none, some, List,
  [], ◌∷◌, arith, ◌==◌, Bool-cases, length, get_elem?, set, get_elem?-set, string_eq, nat_eq,
}
use mix_saving_bot.Pool.Starting.{listed, IsKnown, start_pool-IsKnown}
use mix_saving_bot.Pool.Lifecycle.{
  awaited, end_of, cancel_recovery, Task, stop_pool, cancel_all, start_pool, running, ended,
  cancelled, failed, cancel, WorkerPool,
}
use mix_saving_bot.Queue.Manager.{Exn, Manager, close}
use mix_saving_bot.Common.Exec.{Result, ok, raised}

-- a task that runs after a cancellation is another one
cancel-running :
    (i j : ℕ) (ts : List Task)
    → get_elem? (cancel i ts) j ≡ some running
    → (get_elem? ts j ≡ some running) × (j ≢ i)
unfolding cancel
cancel-running i j [] h = cc
cancel-running zero zero (running ∷ ts) h = cc
cancel-running zero zero (ended ∷ ts) h = cc
cancel-running zero zero (cancelled ∷ ts) h = cc
cancel-running zero zero (failed x ∷ ts) h = cc
cancel-running zero (suc j) (t ∷ ts) h = (h, λ e. absurd (omega (arith, e)))
cancel-running (suc i) zero (t ∷ ts) h = (h, λ e. absurd (omega (arith, e)))
cancel-running (suc i) (suc j) (t ∷ ts) h =
    let (still, other) = cancel-running i j ts h in (still, λ e. other (omega (arith, e)))

cancel_all-running :
    (is : List ℕ) (j : ℕ) (ts : List Task)
    → get_elem? (cancel_all is ts) j ≡ some running
    → (get_elem? ts j ≡ some running) × (listed j is ≡ false)
unfolding cancel_all listed
cancel_all-running [] j ts h = (h, refl)
cancel_all-running (i ∷ is) j ts h =
    let (still, out) = cancel_all-running is j (cancel i ts) h in
    let (there, other) = cancel-running i j ts still in (there, ground (arith, out, other))

cancel_recovery-running :
    (r : Option ℕ) (j : ℕ) (ts : List Task)
    → get_elem? (cancel_recovery r ts) j ≡ some running
    → (get_elem? ts j ≡ some running) × (r ≢ some j)
cancel_recovery-running none j ts h = (h, λ e. cc)
cancel_recovery-running (some i) j ts h =
    let (still, other) = cancel-running i j ts h in (still, λ e. other (ground (arith, e)))

-- What happens to a pool while it runs: a task ends, by itself or with an exception, and others use
-- the queue.
pub data Runs : WorkerPool → WorkerPool → Type 0 where
  here : (p : WorkerPool) → Runs p p
  ends :
      (i : ℕ) (t : Task) (p q : WorkerPool)
      → get_elem? p.loop i ≡ some running
      → t ≢ running
      → Runs (record p { loop = set p.loop i t }) q
      → Runs p q
  uses : (m : Manager) (p q : WorkerPool) → Runs (record p { queue = m }) q → Runs p q

ends-running :
    (i j : ℕ) (t : Task) (ts : List Task)
    → get_elem? ts i ≡ some running
    → t ≢ running
    → get_elem? (set ts i t) j ≡ some running
    → get_elem? ts j ≡ some running
ends-running i j t ts at' n h = elim (Bool-cases (i == j)) [
  | inl same ↦
      let e : some t ≡ some running = ground (arith, h, same, get_elem?-set ts i j t running at') in
      absurd (n (cc e))
  | inr other ↦ ground (arith, h, other, get_elem?-set ts i j t running at')
]

-- the pool keeps its lists, and knows its running tasks
Runs-IsKnown :
    {p q : WorkerPool}
    → Runs p q
    → IsKnown p
    → IsKnown q × (q.tasks ≡ p.tasks) × (q.recovery_task ≡ p.recovery_task)
Runs-IsKnown (here p) v = (v, refl, refl)
Runs-IsKnown (ends i t p q at' n r) v =
    Runs-IsKnown r (record { known = λ j h. v.known j (ends-running i j t p.loop at' n h) })
Runs-IsKnown (uses m p q r) v = Runs-IsKnown r (record { known = v.known })

-- how a stop of the pool `p` ends: nothing runs and nothing is listed, or the recovery loop had failed,
-- its exception is raised, and the workers go on
abbrev pub Stops : WorkerPool → Result Exn (Unit {0}) × WorkerPool → Type 0
Stops p r =
    ((r.0 ≡ ok tt) × ((i : ℕ) → get_elem? r.1.loop i ≢ some running) × (length r.1.tasks ≡ 0))
    ⊎ ((i : ℕ) × (x : Exn) × (p.recovery_task ≡ some i)
        × (get_elem? p.loop i ≡ some (failed x))
        × (r.0 ≡ raised x)
        × (r.1.tasks ≡ p.tasks)
        × (r.1.loop ≡ p.loop))

-- a task that had failed is not cancelled
cancel-failed :
    (i : ℕ) (ts : List Task) (x : Exn)
    → get_elem? (cancel i ts) i ≡ some (failed x)
    → (get_elem? ts i ≡ some (failed x)) × (cancel i ts ≡ ts)
unfolding cancel
cancel-failed i [] x h = cc
cancel-failed zero (running ∷ ts) x h = cc
cancel-failed zero (ended ∷ ts) x h = cc
cancel-failed zero (cancelled ∷ ts) x h = cc
cancel-failed zero (failed y ∷ ts) x h = (h, refl)
cancel-failed (suc i) (t ∷ ts) x h =
    let (there, same) = cancel-failed i ts x h in (there, ap (◌∷◌ t) same)

end_of-raised : (o : Option Task) (x : Exn) → end_of o ≡ raised x → o ≡ some (failed x)
end_of-raised none x h = cc
end_of-raised (some running) x h = cc
end_of-raised (some ended) x h = cc
end_of-raised (some cancelled) x h = cc
end_of-raised (some (failed y)) x h = ap (λ y. some (failed y)) (cc h)

awaited-raised :
    (r : Option ℕ) (ts : List Task) (x : Exn)
    → awaited r (cancel_recovery r ts) ≡ raised x
    → (i : ℕ) × (r ≡ some i) × (get_elem? ts i ≡ some (failed x)) × (cancel_recovery r ts ≡ ts)
awaited-raised none ts x h = cc
awaited-raised (some i) ts x h =
    let (there, same) = cancel-failed i ts x (end_of-raised _ x h) in (i, refl, there, same)

-- the pool that `stop` has closed, up to the wait for the recovery loop
abbrev closed_pool : WorkerPool → WorkerPool
closed_pool p = record p {
  stopped = true;
  queue = close p.queue;
  loop = cancel_recovery p.recovery_task p.loop;
}

stop_raises :
    (p : WorkerPool) (x : Exn)
    → awaited p.recovery_task (cancel_recovery p.recovery_task p.loop) ≡ raised x
    → stop_pool p ≡ (raised x, closed_pool p)
unfolding stop_pool
stop_raises p x e = rw (e, stop_pool) refl

stop_ends :
    (p : WorkerPool)
    → awaited p.recovery_task (cancel_recovery p.recovery_task p.loop) ≡ ok tt
    → stop_pool p ≡ (
      ok tt,
      record (closed_pool p) {
        loop = cancel_all p.tasks (cancel_recovery p.recovery_task p.loop);
        recovery_task = none;
        tasks = [];
      },
    )
unfolding stop_pool
stop_ends p e = rw (e, stop_pool) refl

stop_pool-Stops : (p : WorkerPool) → IsKnown p → Stops p (stop_pool p)
stop_pool-Stops p v = settle (awaited p.recovery_task _) refl
  where
    settle :
        (o : Result Exn (Unit {0}))
        → awaited p.recovery_task (cancel_recovery p.recovery_task p.loop) ≡ o
        → Stops p (stop_pool p)
    settle (raised x) e =
        let (i, here', there, same) = awaited-raised p.recovery_task p.loop x e in
        rw (stop_raises p x e) (inr (i, x, here', there, refl, refl, same))
    settle (ok u) e = rw (stop_ends p e) (
        inl (
          refl,
          λ i h.
              let (still, out) =
                cancel_all-running p.tasks i (cancel_recovery p.recovery_task p.loop) h in
              let (there, other) = cancel_recovery-running p.recovery_task i p.loop still in
              elim (v.known i there) [ inl in_ ↦ cc | inr e' ↦ other e' ],
          refl,
        ))

-- A pool that knows its running tasks and has no recovery loop lists as many more tasks after `start` as
-- it has workers. A `stop` after that, whatever tasks have ended in between and with whatever
-- exceptions, leaves no task running and none listed, unless the recovery loop has ended with an
-- exception: then this is raised, and all other tasks are as they were, and still listed.
pub stop_pool-start_pool :
    (p q : WorkerPool)
    → IsKnown p
    → p.recovery_task ≡ none
    → Runs (start_pool p) q
    → (length q.tasks ≡ length p.tasks + p.workers) × Stops q (stop_pool q)
stop_pool-start_pool p q v free runs =
    let (known, many) = start_pool-IsKnown p v free in
    let (still, same, _) = Runs-IsKnown runs known in
    (ap length same ∙ many, stop_pool-Stops q still)
