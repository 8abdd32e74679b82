-- ===== src/Remote/Paths.antt =====
-- services/remote_backend.py: the ways through `execute_remote_download`. What holds of each of them
-- holds of the call.
use mix_saving_bot.Common.{
  ℕ, String, ◌≡◌, refl, inl, inr, Option, none, some, List, [], ◌∷◌, ◌++◌, leb, ◌==◌, Bool-cases,
  string_eq, nat_eq,
}
use mix_saving_bot.Common.Exec.{Result, ok, raised, then_do}
use mix_saving_bot.Common.Dict.{Dict}
use mix_saving_bot.Common.Json.{Fields, get_field, text_of}
use mix_saving_bot.Queue.Types.{Job, Value}
use mix_saving_bot.Remote.Http.{
  Backend, Session, Reply, response, client_error, broken, Exn, Request, replied,
  normalize_api_base, failure, fields_of, read_json, http_error_result,
}
use mix_saving_bot.Remote.Poll.{
  lift, execute_remote_download, submit_job, submitted_of, submit_reply, remote, poll_remote,
}
use mix_saving_bot.Remote.Polls.{Ran}
use mix_saving_bot.Dedupe.Processor.{jobs_collection_url, pick_remote_id, remote_id_keys}

-- `Q` takes what a request does not change: the readings, the sleeps and the files.
module _ (b : Backend) (job : Job) (fuel : ℕ) (Q : ℕ → ℕ → List String → Ran → Type 0)
    (raises : (x : Exn) (s : Session) → Q s.readings s.sleeps s.temp_files (raised x, s))
    (fails : (message : String) (detail : Dict String Value) (s : Session)
      → Q s.readings s.sleeps s.temp_files (ok (some (failure job message detail)), s))
    (polls : (base remote_id : String) (s : Session)
      → Q s.readings s.sleeps s.temp_files (poll_remote b fuel job base (remote remote_id) s)) where
  abbrev Holds : Session → Ran → Type 0
  Holds s r = Q s.readings s.sleeps s.temp_files r

  picked-Holds :
      (base : String) (payload : Fields) (o : Option String) (s : Session)
      → pick_remote_id (λ key. text_of (get_field key payload)) remote_id_keys ≡ o
      → Holds s (then_do (lift (submit_reply b job 0 (ok payload)) s) (poll_remote b fuel job base))
  unfolding poll_remote
  picked-Holds base payload none s e = rw e (fails _ _ s)
  picked-Holds base payload (some remote_id) s e = rw e (polls base remote_id s)

  submit_reply-Holds :
      (base : String) (status : ℕ) (payload : Result Exn Fields) (s : Session)
      → Holds s (then_do (lift (submit_reply b job status payload) s) (poll_remote b fuel job base))
  unfolding poll_remote http_error_result
  submit_reply-Holds base status (raised x) s = raises x s
  submit_reply-Holds base status (ok payload) s = elim (Bool-cases (leb 400 status)) [
    | inl bad ↦ rw bad (fails _ _ s)
    | inr good ↦ rw good (picked-Holds base payload _ s refl)
  ]

  submitted_of-Holds :
      (base : String) (reply : Reply) (s : Session)
      → Holds s (
          then_do
            (replied reply s)
            (λ r s'. then_do (lift (submitted_of b job r) s') (poll_remote b fuel job base)))
  unfolding submitted_of poll_remote
  submitted_of-Holds base (response status body) s =
      submit_reply-Holds base status (fields_of (read_json b body)) s
  submitted_of-Holds base (client_error e) s = fails _ _ s
  submitted_of-Holds base (broken e) s = raises _ s

  submit_job-Holds : (base : String) (s : Session) → Holds s (submit_job b fuel job base s)
  unfolding submit_job
  submit_job-Holds base s =
      let sent =
        s.sent ++ Request.post (jobs_collection_url base b.jobs_path) job.kind job.payload ∷ [] in
      elim (Bool-cases (base == "")) [
        | inl none_set ↦ rw none_set (fails _ _ s)
        | inr is_set ↦ rw is_set (submitted_of-Holds base (b.reply sent) (record s { sent = sent }))
      ]

  based-Holds :
      (base : Result Exn String) (s : Session)
      → Holds s (then_do (lift base s) (submit_job b fuel job))
  based-Holds (ok base) s = submit_job-Holds base s
  based-Holds (raised x) s = raises x s

  pub execute-Holds :
      (api_base : String) (s : Session) → Holds s (execute_remote_download b fuel job api_base s)
  unfolding execute_remote_download
  execute-Holds api_base s = based-Holds (normalize_api_base b api_base) s
