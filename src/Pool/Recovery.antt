-- ===== src/Pool/Recovery.antt =====
-- services/queue_manager.py: `recover_stale_tasks` where the queue has room.
use mix_saving_bot.Common.{
  ℕ, suc, ◌+◌, ◌-◌, ◌≤◌, String, ◌≡◌, refl, ap, ◌∙◌, ◌⊎◌, Bool, true, false, List, [], ◌∷◌, ◌++◌,
  arith, if◌then◌else◌, length, length-append, string_eq, nat_eq,
}
use mix_saving_bot.Common.Exec.{then_do, ok}
use mathlib.Core.List.{append-nil, append_assoc}
use mix_saving_bot.Common.Dict.{Dict}
use mix_saving_bot.Queue.Types.{Job}
use mix_saving_bot.Queue.Manager.{
  Manager, stale, fresh, requeue, requeue_all, recover_stale_tasks, task_done, is_full,
}
use mix_saving_bot.Queue.Accounts.{IsAccounted}

-- every entry is either too old or stays
stale-fresh :
    (now limit : ℕ) (d : Dict String (Job × ℕ))
    → length (stale now limit d) + length (fresh now limit d) ≡ length d
unfolding stale fresh
stale-fresh now limit [] = refl
stale-fresh now limit ((id, (job, started)) ∷ d) = ground (arith, stale-fresh now limit d)

-- one job is put back
requeue-fits :
    (later : ℕ) (job : Job) (m : Manager) (n : ℕ)
    → m.unfinished ≡ suc n
    → is_full m ≡ false
    → requeue later job m ≡ (ok tt, record m { queue = m.queue ++ job ∷ [] })
unfolding requeue task_done
requeue-fits later job m n e room = ground (arith, e, room)

if-false : {A : Type 0} (b : Bool) (x y : A) → b ≡ false → (if b then x else y) ≡ y
if-false true x y h = cc
if-false false x y h = refl

-- the jobs are put back one after the other
requeue_all-fits :
    (later n : ℕ) (jobs : List Job) (m : Manager)
    → m.closed ≡ false
    → length jobs ≤ m.unfinished
    → (m.maxsize ≡ 0) ⊎ (length m.queue + length jobs ≤ m.maxsize)
    → requeue_all later n jobs m ≡ (ok (n + length jobs), record m { queue = m.queue ++ jobs })
unfolding requeue_all
requeue_all-fits later n [] m opened tokens room = ground (arith, append-nil m.queue)
requeue_all-fits later n (job ∷ jobs) m opened tokens room =
    let m' : Manager = record m { queue = m.queue ++ job ∷ [] } in
    let e : requeue later job m ≡ (ok tt, m') =
      requeue-fits later job m (m.unfinished - 1) (omega (arith, tokens)) (ground (arith, room)) in
    let rest : requeue_all later (suc n) jobs m'
        ≡ (ok (suc n + length jobs), record m' { queue = m'.queue ++ jobs }) =
      requeue_all-fits later (suc n) jobs m' opened (omega (arith, tokens))
        (ground (arith, room, length-append m.queue (job ∷ []))) in
    if-false m.closed _ _ opened
    ∙ ap (λ r. then_do r (λ (u : Unit {0}). requeue_all later (suc n) jobs)) e
    ∙ rest
    ∙ ground (arith, append_assoc m.queue (job ∷ []) jobs)

-- Where the queue is open and has room for all jobs that have been in flight for too long, and every
-- unfinished task is a job of the queue or in flight, the recovery returns their number and moves
-- them to the end of the queue in their order, and changes nothing else.
pub recover_stale_tasks_lem :
    (now later : ℕ) (m : Manager)
    → IsAccounted m
    → m.closed ≡ false
    → let old = stale now m.stale_after m.in_flight in
      (m.maxsize ≡ 0) ⊎ (length m.queue + length old ≤ m.maxsize)
      → recover_stale_tasks now later m ≡ (
        ok (length old),
        record m { queue = m.queue ++ old; in_flight = fresh now m.stale_after m.in_flight },
      )
unfolding recover_stale_tasks
recover_stale_tasks_lem now later m a opened room =
    let old = stale now m.stale_after m.in_flight in
    requeue_all-fits later 0 old (record m { in_flight = fresh now m.stale_after m.in_flight })
      opened (omega (arith, a.sum, stale-fresh now m.stale_after m.in_flight)) room
    ∙ ground arith
