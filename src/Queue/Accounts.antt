-- ===== src/Queue/Accounts.antt =====
-- services/queue_manager.py: each call keeps the count of unfinished tasks. A job that enters the
-- queue has an id that no job of the queue or in flight has, and a job that is acknowledged or given
-- back is in flight.
use mix_saving_bot.Common.{
  ℕ, zero, suc, ◌+◌, ◌≤◌, String, ◌≡◌, refl, sym, ap, ◌∙◌, inl, inr, Bool, true, false, ◌||◌,
  Option, none, some, List, [], ◌∷◌, ◌++◌, arith, eq_iff, eq_refl, leb, if◌then◌else◌, ◌==◌,
  Bool-cases, length, length-append, string_eq, nat_eq,
}
use mix_saving_bot.Queue.Counts.{
  occurs, entries, length-remove, entries-remove, length-put, entries-put, entries-get,
  occurs-append,
}
use mathlib.Core.Path.{subst}
use mix_saving_bot.Common.Dict.{get, put, remove}
use mix_saving_bot.Common.Exec.{pure, Exec, Result, ok, raised, then_do}
use mix_saving_bot.Queue.Types.{Job}
use mix_saving_bot.Queue.Manager.{
  value_error, Exn, Manager, is_full, put_nowait, task_done, enqueue, dequeue, drop_flight,
  acknowledge, retry, nack, attempts_of,
}

-- every unfinished task is a job of the queue or in flight, and no id is there twice
pub record IsAccounted (m : Manager) : Type 0 where
  pub sum : m.unfinished ≡ length m.queue + length m.in_flight
  pub once : (id : String) → occurs id m.queue + entries id m.in_flight ≤ 1

-- a job with a new id comes to the queue
once_more :
    (job : Job) (m : Manager) (id : String)
    → occurs job.id m.queue + entries job.id m.in_flight ≡ 0
    → occurs id m.queue + entries id m.in_flight ≤ 1
    → occurs id (m.queue ++ job ∷ []) + entries id m.in_flight ≤ 1
unfolding occurs
once_more job m id fresh once = elim (Bool-cases (job.id == id)) [
  | inl same ↦
      let zeros : occurs id m.queue + entries id m.in_flight ≡ 0 =
        ap (λ i. occurs i m.queue + entries i m.in_flight) (sym ((eq_iff job.id id).0 same))
        ∙ fresh in
      ground (arith, same, zeros, occurs-append id m.queue (job ∷ []))
  | inr other ↦ ground (arith, other, once, occurs-append id m.queue (job ∷ []))
]

if-IsAccounted :
    {A : Type 0} (c : Bool) (r r' : Result Exn A × Manager)
    → IsAccounted r.1
    → IsAccounted r'.1
    → IsAccounted (if c then r else r').1
if-IsAccounted true r r' a a' = a
if-IsAccounted false r r' a a' = a'

put_nowait-IsAccounted :
    (job : Job) (m : Manager)
    → occurs job.id m.queue + entries job.id m.in_flight ≡ 0
    → IsAccounted m
    → IsAccounted (put_nowait job m).1
unfolding put_nowait
put_nowait-IsAccounted job m fresh a = if-IsAccounted (is_full m) _ _ a (record {
  sum = omega (arith, a.sum, length-append m.queue (job ∷ []));
  once = λ id. once_more job m id fresh (a.once id);
})

pub enqueue-IsAccounted :
    (job : Job) (m : Manager)
    → occurs job.id m.queue + entries job.id m.in_flight ≡ 0
    → IsAccounted m
    → IsAccounted (enqueue job m).1
unfolding enqueue
enqueue-IsAccounted job m fresh a =
    if-IsAccounted m.closed _ (put_nowait job m) a (put_nowait-IsAccounted job m fresh a)

-- the first job of the queue is in flight then
got-IsAccounted :
    (now : ℕ) (m : Manager) (q : List Job)
    → m.queue ≡ q
    → IsAccounted m
    → let after : Option Job × Manager = elim q [
      | [] ↦ (none, m)
      | job ∷ rest ↦
          (some job, record m { queue = rest; in_flight = put job.id (job, now) m.in_flight })
    ] in
      IsAccounted after.1
unfolding occurs
got-IsAccounted now m [] e a = a
got-IsAccounted now m (job ∷ rest) e a =
    let before : (id : String) → occurs id (job ∷ rest) + entries id m.in_flight ≤ 1 =
      λ id. subst (λ l. occurs id l + entries id m.in_flight ≤ 1) e (a.once id) in
    let new : entries job.id m.in_flight ≡ 0 = ground (arith, eq_refl job.id, before job.id) in
    record {
      sum =
          omega (arith, a.sum, ap (λ l. length l) e, length-put job.id (job, now) m.in_flight new);
      once = λ id. omega (arith, before id, entries-put job.id id (job, now) m.in_flight new);
    }

pub dequeue-IsAccounted : (now : ℕ) (m : Manager) → IsAccounted m → IsAccounted (dequeue now m).1
unfolding dequeue
dequeue-IsAccounted now m a = got-IsAccounted now m m.queue refl a

module _ (job : Job) (entry : Job × ℕ) (m : Manager) (here : get job.id m.in_flight ≡ some entry)
    (a : IsAccounted m) where
  -- the job's entry is the only one with its id, and no job of the queue has that id
  alone : (entries job.id m.in_flight ≡ 1) × (occurs job.id m.queue ≡ 0)
  alone = (
    omega (arith, a.once job.id, entries-get job.id entry m.in_flight here),
    omega (arith, a.once job.id, entries-get job.id entry m.in_flight here),
  )

  still_once : (id : String) → occurs id m.queue + entries id (remove job.id m.in_flight) ≤ 1
  still_once id = ground (arith, a.once id, entries-remove job.id id m.in_flight)

  done-IsAccounted :
      (n : ℕ)
      → m.unfinished ≡ n
      → let after : Result Exn (Unit {0}) × Manager = elim n [
        | zero ↦ (raised value_error, drop_flight job m)
        | suc k ↦ (ok tt, record (drop_flight job m) { unfinished = k })
      ] in
        (after.0 ≡ ok tt) × IsAccounted after.1
  done-IsAccounted zero e =
      absurd (omega (arith, e, a.sum, alone.0, length-remove job.id m.in_flight))
  done-IsAccounted (suc n) e = (
    refl,
    record {
      sum = omega (arith, e, a.sum, alone.0, length-remove job.id m.in_flight);
      once = still_once;
    },
  )

  pub acknowledge-IsAccounted : ((acknowledge job m).0 ≡ ok tt) × IsAccounted (acknowledge job m).1
  unfolding acknowledge task_done
  acknowledge-IsAccounted = done-IsAccounted m.unfinished refl

  gone : occurs job.id m.queue + entries job.id (remove job.id m.in_flight) ≡ 0
  gone = ground (arith, alone.1, entries-remove job.id job.id m.in_flight, eq_refl job.id)

  done-absent :
      (n : ℕ)
      → let after : Result Exn (Unit {0}) × Manager = elim n [
        | zero ↦ (raised value_error, drop_flight job m)
        | suc k ↦ (ok tt, record (drop_flight job m) { unfinished = k })
      ] in
        occurs job.id after.1.queue + entries job.id after.1.in_flight ≡ 0
  done-absent zero = gone
  done-absent (suc n) = gone

  acknowledge-absent :
      occurs job.id (acknowledge job m).1.queue + entries job.id (acknowledge job m).1.in_flight ≡ 0
  unfolding acknowledge task_done
  acknowledge-absent = done-absent m.unfinished

tried-IsAccounted :
    (r : Result Exn (Unit {0}) × Manager)
    → IsAccounted r.1
    → IsAccounted (then_do r (λ u. pure true)).1
tried-IsAccounted (ok u, m) a = a
tried-IsAccounted (raised x, m) a = a

retry-IsAccounted :
    (job : Job) (m : Manager)
    → occurs job.id m.queue + entries job.id m.in_flight ≡ 0
    → IsAccounted m
    → IsAccounted (retry job m).1
unfolding retry
retry-IsAccounted job m fresh a =
    let n = suc (attempts_of job m) in
    let m' = record m { attempts = put job.id n m.attempts } in
    let a' : IsAccounted m' = record { sum = a.sum; once = a.once } in
    if-IsAccounted (leb job.max_attempts n || m.closed) (ok false, m') _ a'
      (tried-IsAccounted (put_nowait job m') (put_nowait-IsAccounted job m' fresh a'))

then-IsAccounted :
    (r : Result Exn (Unit {0}) × Manager) (f : Exec Exn Manager Bool)
    → IsAccounted r.1
    → IsAccounted (f r.1).1
    → IsAccounted (then_do r (λ u. f)).1
then-IsAccounted (ok u, m) f a b = b
then-IsAccounted (raised x, m) f a b = a

pub nack-IsAccounted :
    (job : Job) (entry : Job × ℕ) (m : Manager)
    → get job.id m.in_flight ≡ some entry
    → IsAccounted m
    → IsAccounted (nack job m).1
unfolding nack
nack-IsAccounted job entry m here a =
    let (_, b) = acknowledge-IsAccounted job entry m here a in
    then-IsAccounted (acknowledge job m) (retry job) b
      (retry-IsAccounted job (acknowledge job m).1 (acknowledge-absent job entry m here a) b)
