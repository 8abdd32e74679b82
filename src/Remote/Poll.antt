-- ===== src/Remote/Poll.antt =====
-- services/remote_backend.py: `execute_remote_download`. The loop runs on fuel, and `none` means that
-- the fuel was used up.
use mix_saving_bot.Common.{
  ℕ, zero, suc, ◌+◌, String, Option, none, some, List, [], ◌∷◌, ltb, leb, if◌then◌else◌, ◌==◌,
  string_eq, nat_eq,
}
use mix_saving_bot.Common.Exec.{Exec, Result, ok, raised, pure, raise, then_do, ◌>>=◌}
use mix_saving_bot.Common.Json.{Fields, or_json, get_field, text_of}
use mix_saving_bot.Dedupe.Processor.{
  pick_remote_id, remote_id_keys, jobs_collection_url, status_url,
}
use mix_saving_bot.Queue.Types.{Job, Value, TaskResult}
use mix_saving_bot.Remote.Http.{
  Backend, Session, Reply, response, client_error, broken, Request, failure, Exn, other_error, send,
  fields_of, http_error_result, read_json, normalize_api_base, str_or,
}
use mix_saving_bot.Remote.Artifact.{
  Decision, again, answer, collect, completion, fetched, save_remote_file,
}
use mix_saving_bot.Text.{elem, lower, upper}

abbrev pub waiting_words : List String
waiting_words = "queued" ∷ "pending" ∷ "processing" ∷ "running" ∷ "active" ∷ []

abbrev pub failed_words : List String
failed_words = "failed" ∷ "error" ∷ "rejected" ∷ []

abbrev pub finished_words : List String
finished_words = "completed" ∷ "done" ∷ "success" ∷ "finished" ∷ []

abbrev pub remote_failure : Backend → Job → String → Fields → TaskResult
remote_failure b job remote_id payload =
    failure job (str_or b (get_field "message" payload) "Download failed") (
      (
        "error_code",
        Value.text (upper (str_or b (get_field "error_code" payload) "BACKEND_FAILURE")),
      )
      ∷ ("remote_id", Value.text remote_id)
      ∷ ("body", Value.body payload)
      ∷ [])

abbrev pub decide_status : Backend → Job → String → Fields → String → Decision
decide_status b job remote_id payload status =
    if elem status waiting_words
    then again
    else if elem status failed_words
    then answer (remote_failure b job remote_id payload)
    else if elem status finished_words
    then completion b job remote_id payload
    else again

unfoldable pub status_of : Backend → Fields → String
unfolding get_field lower
status_of b payload =
    lower (str_or b (or_json (get_field "status" payload) (get_field "state" payload)) "")

unfoldable pub decide : Backend → Job → String → Fields → Decision
unfolding status_of upper completion
decide b job remote_id payload = decide_status b job remote_id payload (status_of b payload)

abbrev pub decide_reply : Backend → Job → String → ℕ → Result Exn Fields → Result Exn Decision
decide_reply b job remote_id status (raised x) = raised x
decide_reply b job remote_id status (ok payload) =
    if leb 400 status
    then ok (answer (http_error_result b job status payload))
    else ok (decide b job remote_id payload)

-- the reply to a poll
unfoldable pub decision_of : Backend → Job → String → Reply → Result Exn Decision
unfolding read_json decide http_error_result
decision_of b job remote_id (response status body) =
    decide_reply b job remote_id status (fields_of (read_json b body))
decision_of b job remote_id (client_error e) = ok (
    answer (
      failure job "Lost connection while waiting for the file."
        (("error_code", Value.text "BACKEND_UNAVAILABLE") ∷ ("error", Value.text e) ∷ [])))
decision_of b job remote_id (broken e) = raised (other_error e)

abbrev pub as_result :
    Job
    → String
    → Option String
    → Result String String × Session
    → Result Exn (Option TaskResult) × Session
as_result job remote_id filename (r, w) = (ok (some (fetched job remote_id filename r)), w)

-- `none` after the sleep, or the result
unfoldable pub act : Backend → Job → String → Decision → Exec Exn Session (Option TaskResult)
unfolding save_remote_file
act b job remote_id again w = (ok none, record w { sleeps = suc w.sleeps })
act b job remote_id (answer r) w = (ok (some r), w)
act b job remote_id (collect url filename) w =
    as_result job remote_id filename (save_remote_file b url w)

abbrev pub lift : {A : Type 0} → Result Exn A → Exec Exn Session A
lift (ok a) = pure a
lift (raised x) = raise x

unfoldable pub ask : Backend → Job → String → String → Exec Exn Session (Option TaskResult)
unfolding decision_of act
ask b job remote_id poll_url = do
  reply ← send b (Request.get poll_url)
  decision ← lift (decision_of b job remote_id reply)
  act b job remote_id decision

abbrev pub timed_out : Job → String → TaskResult
timed_out job remote_id =
    failure job "Downloader job timed out."
      (("error_code", Value.text "BACKEND_TIMEOUT") ∷ ("remote_id", Value.text remote_id) ∷ [])

abbrev pub or_continue :
    Exec Exn Session (Option TaskResult) → Option TaskResult → Exec Exn Session (Option TaskResult)
or_continue rest none = rest
or_continue rest (some r) = pure (some r)

unfoldable pub poll : Backend → Job → String → String → ℕ → ℕ → Exec Exn Session (Option TaskResult)
unfolding ask
poll b job remote_id poll_url deadline zero w = (ok none, w)
poll b job remote_id poll_url deadline (suc fuel) w =
    let rest = poll b job remote_id poll_url deadline fuel in
    let w' = record w { readings = suc w.readings } in
    if ltb deadline (b.monotonic w.readings)
    then (ok (some (timed_out job remote_id)), w')
    else then_do (ask b job remote_id poll_url w') (or_continue rest)

-- the reply to the submission: a result, or the id at the backend
pub data Submitted : Type 0 where
  refused : TaskResult → Submitted
  remote : String → Submitted

abbrev pub submit_reply : Backend → Job → ℕ → Result Exn Fields → Result Exn Submitted
submit_reply b job status (raised x) = raised x
submit_reply b job status (ok payload) =
    if leb 400 status
    then ok (refused (http_error_result b job status payload))
    else elim (pick_remote_id (λ key. text_of (get_field key payload)) remote_id_keys) [
      | some remote_id ↦ ok (remote remote_id)
      | none ↦ ok (
          refused (
            failure job "Backend response missing job identifier"
              (("error_code", Value.text "BACKEND_PROTOCOL") ∷ ("body", Value.body payload) ∷ [])))
    ]

unfoldable pub submitted_of : Backend → Job → Reply → Result Exn Submitted
unfolding read_json http_error_result pick_remote_id
submitted_of b job (response status body) = submit_reply b job status (fields_of (read_json b body))
submitted_of b job (client_error e) = ok (
    refused (
      failure job "Could not reach downloader service."
        (("error_code", Value.text "BACKEND_UNAVAILABLE") ∷ ("error", Value.text e) ∷ [])))
submitted_of b job (broken e) = raised (other_error e)

-- what follows the submission: the deadline is set, and the loop runs
unfoldable pub poll_remote :
    Backend → ℕ → Job → String → Submitted → Exec Exn Session (Option TaskResult)
unfolding poll status_url
poll_remote b fuel job base (refused r) w = (ok (some r), w)
poll_remote b fuel job base (remote remote_id) w =
    poll b job remote_id (status_url base remote_id b.jobs_path)
      (b.monotonic w.readings + b.max_wait) fuel (record w { readings = suc w.readings })

abbrev pub not_configured : Job → TaskResult
not_configured job =
    failure job "Downloader API is not configured."
      (("error_code", Value.text "BACKEND_NOT_CONFIGURED") ∷ [])

unfoldable pub submit_job : Backend → ℕ → Job → String → Exec Exn Session (Option TaskResult)
unfolding submitted_of poll_remote jobs_collection_url
submit_job b fuel job base = if base == "" then pure (some (not_configured job)) else (do
  reply ← send b (Request.post (jobs_collection_url base b.jobs_path) job.kind job.payload)
  submitted ← lift (submitted_of b job reply)
  poll_remote b fuel job base submitted)

unfoldable pub execute_remote_download :
    Backend → ℕ → Job → String → Exec Exn Session (Option TaskResult)
unfolding normalize_api_base submit_job
execute_remote_download b fuel job api_base = do
  base ← lift (normalize_api_base b api_base)
  submit_job b fuel job base
