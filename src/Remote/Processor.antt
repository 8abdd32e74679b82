-- ===== src/Remote/Processor.antt =====
-- services/remote_backend.py behind services/worker.py: `_run` of `build_download_processor` as a
-- processor of the worker, on the cache that holds the reservations.
use mix_saving_bot.Common.{
  ℕ, suc, ◌*◌, ◌<◌, String, ◌≡◌, refl, sym, ap, ◌∙◌, inl, inr, true, false, ◌||◌, Option, none,
  some, List, eq_iff, if◌then◌else◌, string_eq, nat_eq,
}
use mix_saving_bot.Common.Dict.{get}
use mix_saving_bot.Common.Exec.{Result, ok, raised}
use mix_saving_bot.Dedupe.Cache.{DownloadCache, JsonLibrary}
use mix_saving_bot.Dedupe.Processor.{
  settle_job, settle_job-holder, is_completed, succeeded_with, crashed,
}
use mix_saving_bot.Queue.Types.{Job, TaskResult}
use mix_saving_bot.Queue.Worker.{Answer, returns, crashes, checked}
use mix_saving_bot.Remote.Http.{Backend, Session, Exn}
use mix_saving_bot.Remote.Answers.{Settled}
use mix_saving_bot.Remote.Deadline.{Clock, execute_remote_download_ends}
use mix_saving_bot.Remote.Poll.{execute_remote_download}
use mix_saving_bot.Remote.Polls.{Ran, is_over}
use mix_saving_bot.Remote.Results.{execute_remote_download-Settled}
use mix_saving_bot.Text.{elem}

-- what the worker sees of a call, with the text of its traceback; `none` means that the fuel is used up
abbrev pub answer_of : (Exn → String) → Result Exn (Option TaskResult) → Option Answer
answer_of traceback (ok none) = none
answer_of traceback (ok (some r)) = some (returns r)
answer_of traceback (raised x) = some (crashes (traceback x))

-- `_run`, by the outcome of `execute_remote_download`
abbrev pub processed :
    JsonLibrary
    → Option (List String)
    → String
    → Option Answer
    → DownloadCache
    → Option (Answer × DownloadCache)
processed lib torn key none c = none
processed lib torn key (some a) c = some (a, settle_job lib torn key a c)

module _ (b : Backend) (job : Job) (traceback : Exn → String) where
  -- the worker keeps a result with the job's own id, and takes an exception for a failure
  agrees :
      (files : List String) (r : Ran)
      → Settled b job files r
      → is_over r.0 ≡ true
      → (a : Answer) × (answer_of traceback r.0 ≡ some a)
        × (is_completed (checked job a).status ≡ succeeded_with a)
  unfolding checked
  agrees files (ok none, s) h over = cc
  agrees files (ok (some t), s) (inl (h, _)) over =
      (returns t, refl, simp ((eq_iff t.job_id job.id).1 h.0) refl)
  agrees files (ok (some t), s) (inr (h, _)) over =
      (returns t, refl, simp ((eq_iff t.job_id job.id).1 h.0) refl)
  agrees files (raised x, s) h over = (crashes (traceback x), refl, refl)

  module _ (interval fuel : ℕ) (enough : b.max_wait < interval * fuel) (s : Session)
      (clock : Clock b interval s.readings)
      (fresh : elem (b.temp_file s.temp_files) s.temp_files ≡ false) (lib : JsonLibrary)
      (torn : Option (List String)) (key : String) (c : DownloadCache) where
    -- With rounds for the time that it may wait, the processor always answers. The key is newly marked
    -- as completed exactly if the worker takes the job for completed, and nobody holds its
    -- reservation then, unless the call has raised.
    pub process_remote_lem :
        (api_base : String)
        → let r = execute_remote_download b (suc fuel) job api_base s in
          (a : Answer) × (after : DownloadCache) × (processed lib torn key
              (answer_of traceback r.0)
              c
            ≡ some (a, after))
          × (get key after.in_flight ≡ (if crashed a then get key c.in_flight else none))
          × (elem key after.completed
              ≡ (is_completed (checked job a).status || elem key c.completed))
    process_remote_lem api_base =
        let r = execute_remote_download b (suc fuel) job api_base s in
        let (over, _) = execute_remote_download_ends b job interval fuel enough api_base s clock in
        let settled =
          execute_remote_download-Settled b job s.temp_files fresh (suc fuel) api_base s refl in
        let (a, is_answer, same) = agrees s.temp_files r settled over in
        let (held, marked) = settle_job-holder lib torn key a c in
        (
          a,
          settle_job lib torn key a c,
          ap (λ o. processed lib torn key o c) is_answer,
          held,
          marked ∙ ap (λ d. d || elem key c.completed) (sym same),
        )
