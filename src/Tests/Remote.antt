-- ===== src/Tests/Remote.antt =====
-- The theorems of `Remote` on concrete data: a backend that never finishes, and one that is done.
use mix_saving_bot.Common.{
  ◌*◌, ◌≤◌, String, ◌≡◌, refl, true, false, ◌||◌, Option, none, some, List, [], ◌∷◌, arith,
  if◌then◌else◌, ◌==◌, string_eq, nat_eq,
}
use mix_saving_bot.Common.Dict.{get}
use mix_saving_bot.Dedupe.Cache.{DownloadCache, init, try_reserve}
use mix_saving_bot.Dedupe.Processor.{crashed, is_completed}
use mix_saving_bot.Queue.Worker.{Answer, checked}
use mix_saving_bot.Remote.Processor.{answer_of, processed, process_remote_lem}
use mix_saving_bot.Tests.Dedupe.{json_library}
use mix_saving_bot.Text.{elem}
use mix_saving_bot.Common.Json.{Json, object, end, field}
use mix_saving_bot.Tests.Data.{queue_job}
use mix_saving_bot.Remote.Http.{Request, Backend, Session, Reply, response}
use mix_saving_bot.Remote.Deadline.{Clock, execute_remote_download_ends}
use mix_saving_bot.Remote.Poll.{execute_remote_download}
use mix_saving_bot.Remote.Polls.{is_over}
use mix_saving_bot.Remote.Answers.{Settled}
use mix_saving_bot.Remote.Results.{execute_remote_download-Settled}

-- "id" is the reply to the submission, "busy" that of a job at work, and "done" that of a finished one
abbrev loads : String → Option Json
loads s =
    if s == "id"
    then some (object (field "id" (Json.text "r1") end))
    else if s == "busy"
    then some (object (field "status" (Json.text "running") end))
    else some (
        object (
          field "status" (Json.text "done")
            (field "artifact" (object (field "url" (Json.text "http://b/f") end)) end)))

abbrev replies : String → List Request → Reply
replies body (_ ∷ []) = response 200 "id"
replies body sent = response 200 body

-- a reading comes 1250 ms after the one before it
abbrev backend : String → Backend
backend body = record {
  loads = loads;
  show = λ j. "";
  digits = λ n. "";
  urlsplit = λ s. some (record { scheme = "http"; netloc = "b"; path = "/" });
  urlunsplit = λ parts. "http://b";
  jobs_path = none;
  max_wait = 5000;
  monotonic = λ n. 1250 * n;
  reply = replies body;
  path_str = λ p. p;
  is_file = λ p. true;
  temp_file = λ files. "/tmp/t.bin";
  copy_fails = λ sent. none;
}

abbrev session : Session
session = record { sent = []; readings = 0; sleeps = 0; temp_files = [] }

clock : (body : String) → Clock (backend body) 1250 0
clock body = record { moves = omega arith; sleeps = λ n le. omega arith }

execute_remote_download_ends_example :
    let r = execute_remote_download (backend "busy") 6 (queue_job "j1") "http://b/" session in
    (is_over r.0 ≡ true) × (1250 * r.1.sleeps ≤ 6250)
execute_remote_download_ends_example =
    execute_remote_download_ends (backend "busy") (queue_job "j1") 1250 5 (omega arith) "http://b/"
      session (clock "busy")

execute_remote_download-Settled_example :
    Settled
      (backend "done")
      (queue_job "j1")
      []
      (execute_remote_download (backend "done") 6 (queue_job "j1") "http://b/" session)
execute_remote_download-Settled_example =
    execute_remote_download-Settled (backend "done") (queue_job "j1") [] refl 6 "http://b/" session
      refl

abbrev reserved : DownloadCache
reserved = (try_reserve json_library false "k1" "j1" (init false none)).1

-- the job is done, and its key is marked
process_remote_lem_example :
    let r = execute_remote_download (backend "done") 6 (queue_job "j1") "http://b/" session in
    (a : Answer) × (after : DownloadCache) × (processed json_library none "k1"
        (answer_of (λ x. "boom") r.0)
        reserved
      ≡ some (a, after))
    × (get "k1" after.in_flight ≡ (if crashed a then get "k1" reserved.in_flight else none))
    × (elem "k1" after.completed
        ≡ (is_completed (checked (queue_job "j1") a).status || elem "k1" reserved.completed))
process_remote_lem_example =
    process_remote_lem (backend "done") (queue_job "j1") (λ x. "boom") 1250 5 (omega arith) session
      (clock "done") refl json_library none "k1" reserved "http://b/"
