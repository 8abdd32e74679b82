-- ===== src/Queue/Retries.antt =====
-- services/worker.py: the result of a round, its waiter, and the number of retries.
use mix_saving_bot.Common.{
  ℕ, ◌≡◌, refl, ap, ◌∙◌, inl, inr, some, arith, eq_iff, Option-cases, get_elem?, get_elem?-set,
  string_eq, nat_eq,
}
use mix_saving_bot.Common.Dict.{get}
use mix_saving_bot.Queue.Types.{Job, TaskResult}
use mix_saving_bot.Queue.Manager.{
  put_nowait, retry, task_done, nack, publish_result, acknowledge, Manager, waiting, result,
}
use mix_saving_bot.Queue.Worker.{
  Answer, checked, returns, crashes, Processors, process, dispatch, finish,
}

finish-loop : (job : Job) (res : TaskResult) (m : Manager) → (finish job res m).1.loop ≡ m.loop
unfolding finish acknowledge nack task_done retry put_nowait
finish-loop job res m = ground arith

checked-job_id : (job : Job) (a : Answer) → (checked job a).job_id ≡ job.id
unfolding checked
checked-job_id job (returns out) = ground (arith, eq_iff out.job_id job.id)
checked-job_id job (crashes tb) = refl

dispatch-job_id : (processors : Processors) (job : Job) → (dispatch processors job).job_id ≡ job.id
unfolding dispatch
dispatch-job_id processors job = elim (Option-cases (processors job.kind)) [
  | inl e ↦ rw (e, dispatch) refl
  | inr (processor, e) ↦ rw (e, dispatch) (checked-job_id job (processor job))
]

-- the future of the job is resolved
publish_result-loop :
    (res : TaskResult) (m : Manager) (fut : ℕ)
    → get res.job_id m.waiters ≡ some fut
    → get_elem? m.loop fut ≡ some waiting
    → get_elem? (publish_result res m).loop fut ≡ some (result res)
unfolding publish_result
publish_result-loop res m fut w p =
    ground (arith, w, p, get_elem?-set m.loop fut fut (result res) waiting p)

-- If a caller waits for a job, a round of the worker with that job resolves the caller's future,
-- with a result that carries the job's own id, whatever the processor does and also if the
-- acknowledgement then raises.
pub process_wakes :
    (processors : Processors) (job : Job) (m : Manager) (fut : ℕ)
    → get job.id m.waiters ≡ some fut
    → get_elem? m.loop fut ≡ some waiting
    → (get_elem? (process processors job m).1.loop fut ≡ some (result (dispatch processors job)))
      × ((dispatch processors job).job_id ≡ job.id)
unfolding process
process_wakes processors job m fut w p =
    let res = dispatch processors job in
    let own = dispatch-job_id processors job in
    let woken = publish_result-loop res m fut (rw own w) p in
    (ap (λ l. get_elem? l fut) (finish-loop job res (publish_result res m)) ∙ woken, own)
