-- ===== src/Queue/Order.antt =====
-- services/queue_manager.py: the manager against the abstract queue of `Queue.Fifo`.
use mix_saving_bot.Common.{
  ℕ, zero, suc, ◌-◌, ◌≤◌, ◌<◌, ◌≡◌, refl, sym, ap, ◌∙◌, Bool, true, false, ◌&&◌, Option, none, some,
  List, [], ◌∷◌, ◌++◌, arith, ltb, leb, if◌then◌else◌, length, get_elem?, drop, length-drop,
  length-append, string_eq, nat_eq,
}
use mix_saving_bot.Common.Dict.{put, remove}
use mix_saving_bot.Common.Exec.{ok, raised, Result}
use mix_saving_bot.Queue.Types.{Job}
use mix_saving_bot.Queue.Manager.{
  init, acknowledge, end_wait, publish_result, abandon_wait_if_pending, close, drop_flight,
  queue_overflow, value_error, queue_closed, Exn, begin_wait, waiting, dequeue, Manager, is_full,
  put_nowait, enqueue, task_done,
}
use mix_saving_bot.Queue.Fifo.{
  enqueues, begins_wait, acknowledges, ends_wait, dequeues, publishes, abandons, closes, fifo_init,
  accepted, full, Op, refused, step, fifo_step, answers, fifo_answers, Answer, fifo_get, served,
  answer_of, Fifo, fifo_put, Refines, Simulates,
}

drop-append : (n : ℕ) (xs ys : List Job) → n ≤ length xs → drop n (xs ++ ys) ≡ drop n xs ++ ys
drop-append zero xs ys le = refl
drop-append (suc n) [] ys le = absurd (omega (arith, le))
drop-append (suc n) (x ∷ xs) ys le = drop-append n xs ys (omega (arith, le))

-- what stands first behind `n` jobs
data Front (n : ℕ) (xs : List Job) : Type 0 where
  empty : drop n xs ≡ [] → get_elem? xs n ≡ none → Front n xs
  first :
      (x : Job)
      → drop n xs ≡ x ∷ drop (suc n) xs
      → get_elem? xs n ≡ some x
      → n < length xs
      → Front n xs

shifted : (n : ℕ) (x : Job) (xs : List Job) → Front n xs → Front (suc n) (x ∷ xs)
shifted n x xs (empty d g) = empty d g
shifted n x xs (first y d g l) = first y d g (omega (arith, l))

front : (n : ℕ) (xs : List Job) → n ≤ length xs → Front n xs
front zero [] le = empty refl refl
front zero (x ∷ xs) le = first x refl refl (omega arith)
front (suc n) [] le = absurd (omega (arith, le))
front (suc n) (x ∷ xs) le = shifted n x xs (front n xs (omega (arith, le)))

module _ (bound : ℕ) where
  -- what the two tests see is the same
  full_agrees :
      (m : Manager) (f : Fifo)
      → Refines bound m f
      → is_full m ≡ (ltb 0 bound && leb bound (length f.arrived - f.count))
  full_agrees m f r = rw (r.same, r.waits, length-drop f.count f.arrived) refl

  put-Refines :
      (job : Job) (m : Manager) (f : Fifo)
      → Refines bound m f
      → Refines bound
          (record m { queue = m.queue ++ job ∷ []; unfinished = suc m.unfinished })
          (record f { arrived = f.arrived ++ job ∷ [] })
  put-Refines job m f r = record {
    waits = ap (λ q. q ++ job ∷ []) r.waits ∙ sym (drop-append f.count f.arrived (job ∷ []) r.few);
    few = omega (arith, r.few, length-append f.arrived (job ∷ []));
    same = r.same;
    closing = r.closing;
  }

  -- what the abstract queue does not see may change
  kept-Refines :
      (m m' : Manager) (f : Fifo)
      → m'.queue ≡ m.queue
      → m'.maxsize ≡ m.maxsize
      → m'.closed ≡ m.closed
      → Refines bound m f
      → Refines bound m' f
  kept-Refines m m' f q s c r = record {
    waits = q ∙ r.waits;
    few = r.few;
    same = s ∙ r.same;
    closing = c ∙ r.closing;
  }

  -- the same tests lead to the same answers
  tests_Simulate :
      (c c' d d' : Bool) (m m' : Manager) (f f' : Fifo)
      → c ≡ c'
      → d ≡ d'
      → Refines bound m f
      → Refines bound m' f'
      → let (a, after) : Result Exn (Unit {0}) × Manager =
          if c
          then (raised queue_closed, m)
          else if d
          then (raised queue_overflow, m)
          else (ok tt, m') in
        Simulates bound
          (answer_of a, after)
          (if c' then (refused, f) else if d' then (full, f) else (accepted, f'))
  tests_Simulate true true d d' m m' f f' e g r r' = (refl, r)
  tests_Simulate true false d d' m m' f f' e g r r' = cc
  tests_Simulate false true d d' m m' f f' e g r r' = cc
  tests_Simulate false false true true m m' f f' e g r r' = (refl, r)
  tests_Simulate false false true false m m' f f' e g r r' = cc
  tests_Simulate false false false true m m' f f' e g r r' = cc
  tests_Simulate false false false false m m' f f' e g r r' = (refl, r')

  enqueue-Simulates :
      (job : Job) (m : Manager) (f : Fifo)
      → Refines bound m f
      → let (a, m') = enqueue job m in Simulates bound (answer_of a, m') (fifo_put bound job f)
  unfolding enqueue put_nowait
  enqueue-Simulates job m f r =
      tests_Simulate m.closed f.is_closed (is_full m) _ m _ f _ r.closing (full_agrees m f r) r
        (put-Refines job m f r)

  -- `begin_wait` takes the waiter back where the queue refuses the job
  taken_back :
      (job : Job) (fut : ℕ) (r : Result Exn (Unit {0}) × Manager) (t : Answer × Fifo)
      → Simulates bound (answer_of r.0, r.1) t
      → let (a, m') : Result Exn ℕ × Manager = elim r.0 [
        | ok _ ↦ (ok fut, r.1)
        | raised x ↦ (raised x, record r.1 { waiters = remove job.id r.1.waiters })
      ] in
        Simulates bound (answer_of a, m') t
  taken_back job fut (ok u, m) t h = h
  taken_back job fut (raised queue_closed, m) t (e, r) = (e, kept-Refines _ _ _ refl refl refl r)
  taken_back job fut (raised queue_overflow, m) t (e, r) = (e, kept-Refines _ _ _ refl refl refl r)
  taken_back job fut (raised value_error, m) t (e, r) = (e, kept-Refines _ _ _ refl refl refl r)

  begin_wait-Simulates :
      (job : Job) (m : Manager) (f : Fifo)
      → Refines bound m f
      → let (a, m') = begin_wait job m in Simulates bound (answer_of a, m') (fifo_put bound job f)
  unfolding begin_wait
  begin_wait-Simulates job m f r =
      let m' = record m {
        waiters = put job.id (length m.loop) m.waiters;
        loop = m.loop ++ waiting ∷ [];
      } in
      taken_back job (length m.loop) (enqueue job m') _
        (enqueue-Simulates job m' f (kept-Refines _ _ _ refl refl refl r))

  done-Refines :
      (n : ℕ) (m : Manager) (f : Fifo)
      → Refines bound m f
      → let after : Result Exn (Unit {0}) × Manager = elim n [
        | zero ↦ (raised value_error, m)
        | suc k ↦ (ok tt, record m { unfinished = k })
      ] in
        Refines bound after.1 f
  done-Refines zero m f r = r
  done-Refines (suc n) m f r = kept-Refines _ _ _ refl refl refl r

  got-Simulates :
      (now : ℕ) (m : Manager) (f : Fifo) (q : List Job)
      → q ≡ drop f.count f.arrived
      → Refines bound m f
      → Front f.count f.arrived
      → let (o, m') : Option Job × Manager = elim q [
        | [] ↦ (none, m)
        | job ∷ rest ↦
            (some job, record m { queue = rest; in_flight = put job.id (job, now) m.in_flight })
      ] in
        Simulates bound (served o, m') (fifo_get bound f)
  got-Simulates now m f q e r (empty d g) =
      simp (e ∙ d, g)
        (
          refl,
          record {
            waits = r.waits;
            few = omega (arith, r.few);
            same = r.same;
            closing = r.closing;
          },
        )
  got-Simulates now m f q e r (first x d g l) =
      simp (e ∙ d, g)
        (refl, record { waits = refl; few = omega (arith, l); same = r.same; closing = r.closing })

  dequeue-Simulates :
      (now : ℕ) (m : Manager) (f : Fifo)
      → Refines bound m f
      → let (o, m') = dequeue now m in Simulates bound (served o, m') (fifo_get bound f)
  unfolding dequeue
  dequeue-Simulates now m f r =
      got-Simulates now m f m.queue r.waits r (front f.count f.arrived r.few)

  step-Simulates :
      (m : Manager) (f : Fifo) (o : Op)
      → Refines bound m f
      → Simulates bound (step m o) (fifo_step bound f o)
  unfolding step fifo_step acknowledge task_done end_wait publish_result abandon_wait_if_pending
      close
  step-Simulates m f (enqueues job) r = enqueue-Simulates job m f r
  step-Simulates m f (begins_wait job) r = begin_wait-Simulates job m f r
  step-Simulates m f (acknowledges job) r =
      (refl, done-Refines m.unfinished (drop_flight job m) f (kept-Refines m _ f refl refl refl r))
  step-Simulates m f (ends_wait job) r = (refl, kept-Refines m _ f refl refl refl r)
  step-Simulates m f (dequeues now) r = dequeue-Simulates now m f r
  step-Simulates m f (publishes res) r = (refl, kept-Refines m _ f refl refl refl r)
  step-Simulates m f (abandons job_id) r = (refl, kept-Refines m _ f refl refl refl r)
  step-Simulates m f closes r =
      (refl, record { waits = r.waits; few = r.few; same = r.same; closing = refl })

  answers_agree :
      (os : List Op) (m : Manager) (f : Fifo)
      → Refines bound m f
      → answers m os ≡ fifo_answers bound f os
  unfolding answers fifo_answers
  answers_agree [] m f r = refl
  answers_agree (o ∷ os) m f r =
      let (same, next) = step-Simulates m f o r in
      ap (λ a. a ∷ answers (step m o).1 os) same
      ∙ ap (λ l. (fifo_step bound f o).0 ∷ l) (answers_agree os (step m o).1 _ next)

-- Whatever callers put, take, acknowledge, wait for and close, a new queue manager answers as the
-- abstract queue does, which refuses a job exactly if it is closed or holds `maxsize` jobs, and
-- serves the jobs in the order in which they have arrived.
pub manager-fifo :
    (maxsize stale_after : ℕ) (os : List Op)
    → answers (init maxsize stale_after) os ≡ fifo_answers maxsize fifo_init os
manager-fifo maxsize stale_after os =
    answers_agree maxsize os (init maxsize stale_after) fifo_init
      (record { waits = refl; few = omega arith; same = refl; closing = refl })
