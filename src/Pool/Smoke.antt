-- ===== src/Pool/Smoke.antt =====
-- services/__main__.py: the smoke test, a pipeline with a pool whose download always succeeds. Texts
-- and times are arguments; the first free worker takes the job while the caller waits.
use mix_saving_bot.Common.{
  ℕ, String, ◌≡◌, false, Option, none, some, [], ◌∷◌, eq_refl, get_elem?, string_eq, nat_eq,
}
use mix_saving_bot.Common.Dict.{put, get}
use mix_saving_bot.Queue.Manager.{acknowledge, init, Future, result}
use mix_saving_bot.Dedupe.Processor.{settle_job}
use mix_saving_bot.Dedupe.Cache.{default_dedupe_key, JsonLibrary, init as cache_init}
use mix_saving_bot.Common.Exec.{Result, ok}
use mix_saving_bot.Queue.Types.{Job, TaskResult, completed}
use mix_saving_bot.Queue.Worker.{returns, dispatch}
use mix_saving_bot.Dedupe.Pipeline.{
  Error, key_of, duplicate_result, make_job, rejected, submit_download, Submitted,
}
use mix_saving_bot.Pool.System.{
  dedupe_key_for_payload, text_of, processors, start, System, leave, answer, take_job, submit,
  settle,
}

unfoldable pub mock_download : Job → TaskResult
unfolding get
mock_download job = record {
  job_id = job.id;
  status = completed;
  message = "mock_ok";
  detail = elim (get "url" job.payload) [ none ↦ [] | some url ↦ ("url", url) ∷ [] ];
}

-- `_main` up to the second submission: the job is made, taken, run, committed and answered
unfoldable pub first_submit : JsonLibrary → String → ℕ → String → String → System
unfolding mock_download submit take_job settle answer leave
first_submit lib id now url media =
    let job = make_job id now url media in
    let res = mock_download job in
    let s = start (record { queue = init 8 30; cache = some (cache_init false none) }) 2 in
    let s = take_job now (submit lib false id now url media s) in
    let s = settle lib none (returns res) [] job [] s in
    leave job (answer [] job (dispatch (processors (returns res)) job) [] s)

-- the results of both submissions
unfoldable pub main :
    JsonLibrary → String → String → ℕ → String → String → Option Future × Result Error Submitted
unfolding first_submit
main lib id id' now url media =
    let s = first_submit lib id now url media in
    (get_elem? s.pipeline.queue.loop 0, (submit_download lib false id' now url media s.pipeline).0)

-- The first submission is answered with a completed result, and the second with a rejected duplicate,
-- for every resource, every pair of ids and every hash.
pub main_lem :
    (lib : JsonLibrary) (id id' : String) (now : ℕ) (url media : String)
    → main lib id id' now url media ≡ (
      some (result (mock_download (make_job id now url media))),
      ok (rejected (duplicate_result id' (key_of lib url media))),
    )
unfolding main dedupe_key_for_payload text_of acknowledge settle_job default_dedupe_key put
main_lem lib id id' now url media = simp eq_refl
