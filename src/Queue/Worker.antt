-- ===== src/Queue/Worker.antt =====
-- services/worker.py: one round of `Worker.run`. A processor is a function of the number of rounds
-- so far and of the job, and returns a result or raises. Cancellation is not modelled.
use mix_saving_bot.Common.{
  ℕ, String, Bool, true, false, Option, none, some, [], ◌∷◌, if◌then◌else◌, ◌==◌, string_eq, nat_eq,
}
use Prim.Native.String.{◌++◌ as ◌+s◌}
use mix_saving_bot.Common.Exec.{Exec, ok, pure, ◌>>=◌}
use mix_saving_bot.Queue.Types.{
  Job, JobStatus, text, completed, failed, rejected_duplicate, skipped, TaskResult,
}
use mix_saving_bot.Queue.Manager.{Exn, Manager, dequeue, acknowledge, nack, publish_result}

pub data Answer : Type 0 where
  returns : TaskResult → Answer
  crashes : String → Answer

abbrev pub Processors : Type 0
Processors = String → Option (Job → Answer)

abbrev pub failure : Job → String → String → String → String → TaskResult
failure job message code key value = record {
  job_id = job.id;
  status = failed;
  message = message;
  detail = ("error_code", text code) ∷ (key, text value) ∷ [];
}

-- the processor's answer, with the test on its `job_id`; a crash is turned into a result by `run`
unfoldable pub checked : Job → Answer → TaskResult
checked job (returns out) =
    if out.job_id == job.id
    then out
    else failure job "Processor produced mismatched job_id" "PROCESSOR_BUG" "other_job_id"
        out.job_id
checked job (crashes tb) = failure job "Worker crash" "WORKER_EXCEPTION" "traceback" tb

unfoldable pub dispatch : Processors → Job → TaskResult
unfolding checked
dispatch processors job = elim (processors job.kind) [
  | none ↦ record {
    job_id = job.id;
    status = failed;
    message = "No processor for kind " +s job.kind;
    detail = ("error_code", text "NO_PROCESSOR") ∷ [];
  }
  | some processor ↦ checked job (processor job)
]

-- result.status in (COMPLETED, REJECTED_DUPLICATE, SKIPPED)
abbrev pub is_settled : JobStatus → Bool
is_settled completed = true
is_settled rejected_duplicate = true
is_settled skipped = true
is_settled _ = false

unfoldable pub finish : Job → TaskResult → Exec Exn Manager (Unit {0})
finish job res =
    if is_settled res.status
    then acknowledge job
    else if job.retry_on_failure
    then (do _ ← nack job; pure tt)
    else acknowledge job

-- `job` has been taken from the queue
unfoldable pub process : Processors → Job → Exec Exn Manager (Unit {0})
unfolding dispatch finish
process processors job m =
    let res = dispatch processors job in finish job res (publish_result res m)

-- a round of the loop; it waits on an empty queue
unfoldable pub round : Processors → ℕ → Exec Exn Manager (Unit {0})
unfolding process
round processors now m =
    let (next, m') = dequeue now m in
    elim next [ none ↦ (ok tt, m') | some job ↦ process processors job m' ]
