-- ===== src/Remote/Answers.antt =====
-- services/remote_backend.py: what the results of the loop promise.
use mix_saving_bot.Common.{
  ℕ, String, ◌≡◌, refl, ◌⊎◌, inl, inr, Bool, true, false, not, Option, none, some, List, [], ◌∷◌,
  ◌++◌, arith, eq_refl, leb, if◌then◌else◌, Bool-cases, string_eq, nat_eq,
}
use mix_saving_bot.Remote.Http.{
  Request, Backend, Reply, response, client_error, broken, Exn, fields_of, read_json,
  http_error_result,
}
use mix_saving_bot.Remote.Artifact.{
  artifact_of, some_path, some_url, copied, collect, delivered, Decision, again, answer, completion,
  unlinked, on_disk, with_filename,
}
use mix_saving_bot.Common.Json.{or_json, get_field, text_of, Fields}
use mix_saving_bot.Common.Exec.{Result, ok, raised}
use mix_saving_bot.Common.Dict.{Dict, get}
use mix_saving_bot.Queue.Types.{Job, Value, TaskResult, completed, failed}
use mix_saving_bot.Remote.Poll.{
  failed_words, waiting_words, finished_words, decide_status, status_of, remote_failure, decide,
  decide_reply, decision_of,
}
use mix_saving_bot.Remote.Polls.{Ran}
use mix_saving_bot.Text.{upper, elem}

unlinked-absent : (p : String) (l : List String) → elem p l ≡ false → unlinked p l ≡ l
unlinked-absent p [] h = refl
unlinked-absent p (x ∷ l) h = ground (arith, h, unlinked-absent p l)

pub unlinked-fresh : (p : String) (l : List String) → elem p l ≡ false → unlinked p (p ∷ l) ≡ l
unlinked-fresh p l h = rw (eq_refl p) (unlinked-absent p l h)

-- the path and the URL that the artifact of a reply names
abbrev pub artifact_path : Fields → Option String
artifact_path payload =
    let artifact = artifact_of (get_field "artifact" payload) in
    some_path (text_of (or_json (get_field "file_path" artifact) (get_field "local_path" artifact)))

abbrev pub artifact_url : Fields → Option String
artifact_url payload =
    let artifact = artifact_of (get_field "artifact" payload) in
    some_url (
      text_of (
        or_json (or_json (get_field "download_url" artifact) (get_field "url" artifact))
          (get_field "signed_url" artifact)))

abbrev pub named : (Fields → Option String) → Result Exn Fields → Option String
named f (ok payload) = f payload
named f (raised x) = none

abbrev pub reported : Backend → (Fields → Option String) → Reply → Option String
reported b f (response status body) = named f (fields_of (read_json b body))
reported b f (client_error e) = none
reported b f (broken e) = none

abbrev pub is_good : Reply → Bool
is_good (response status body) = not (leb 400 status)
is_good _ = false

module _ (b : Backend) (job : Job) where
  -- a result that leaves no new file: a failure, or the file that the reply names and that is there
  abbrev pub Answered : Reply → TaskResult → Type 0
  Answered reply r =
      (r.job_id ≡ job.id)
      × ((r.status ≡ failed)
          ⊎ ((p : String) × (r.status ≡ completed)
              × (get "output_path" r.detail ≡ some (Value.text (b.path_str p)))
              × (b.is_file p ≡ true)
              × (reported b artifact_path reply ≡ some p)))

  -- a result with a file that was fetched by the last request, from the URL that the reply before names
  abbrev pub Fetched : String → List Request → TaskResult → Type 0
  Fetched p sent r =
      (r.job_id ≡ job.id)
      × (r.status ≡ completed)
      × (get "output_path" r.detail ≡ some (Value.text p))
      × (is_good (b.reply sent) ≡ true)
      × ((before : List Request) × (url : String) × (sent ≡ before ++ Request.get url ∷ [])
          × (reported b artifact_url (b.reply before) ≡ some url))

  abbrev pub Settled : List String → Ran → Type 0
  Settled files (raised x, s) = s.temp_files ≡ files
  Settled files (ok none, s) = s.temp_files ≡ files
  Settled files (ok (some r), s) =
      (Answered (b.reply s.sent) r × (s.temp_files ≡ files))
      ⊎ (Fetched (b.temp_file files) s.sent r × (s.temp_files ≡ b.temp_file files ∷ files))

  abbrev pub Decided : Reply → Decision → Type 0
  Decided reply (answer r) = Answered reply r
  Decided reply (collect url filename) = reported b artifact_url reply ≡ some url
  Decided reply again = Unit

  pub copied-is_good :
      (sent : List Request) (reply : Reply) (u : Unit {0})
      → copied b sent reply ≡ ok u
      → is_good reply ≡ true
  copied-is_good sent (response status body) u h = elim (Bool-cases (leb 400 status)) [
    | inl bad ↦ absurd (ground (arith, h, bad))
    | inr good ↦ rw good refl
  ]
  copied-is_good sent (client_error e) u h = cc
  copied-is_good sent (broken e) u h = cc

  pub output_path-with_filename :
      (filename : Option String) (p : String) (rest : Dict String Value)
      → get "output_path" (with_filename filename (("output_path", Value.text p) ∷ rest))
        ≡ some (Value.text p)
  unfolding get
  output_path-with_filename none p rest = refl
  output_path-with_filename (some name) p rest = refl

  on_disk-Answered :
      (reply : Reply) (remote_id p : String) (filename : Option String)
      → reported b artifact_path reply ≡ some p
      → Answered reply (on_disk b job remote_id p filename)
  on_disk-Answered reply remote_id p filename e = elim (Bool-cases (b.is_file p)) [
    | inl there ↦
        rw there
          (refl, inr (p, refl, output_path-with_filename filename (b.path_str p) _, there, e))
    | inr gone ↦ rw gone (refl, inl refl)
  ]

  delivered-Decided :
      (reply : Reply) (remote_id : String) (payload : Fields) (filename path url : Option String)
      → reported b artifact_path reply ≡ path
      → reported b artifact_url reply ≡ url
      → Decided reply (delivered b job remote_id payload filename path url)
  delivered-Decided reply remote_id payload filename (some p) url e f =
      on_disk-Answered reply remote_id p filename e
  delivered-Decided reply remote_id payload filename none (some url) e f = f
  delivered-Decided reply remote_id payload filename none none e f = (refl, inl refl)

  module _ (reply : Reply) (remote_id : String) where
    if-Decided :
        (c : Bool) (x y : Decision)
        → Decided reply x
        → Decided reply y
        → Decided reply (if c then x else y)
    if-Decided true x y h k = h
    if-Decided false x y h k = k

    -- the reply holds these fields
    abbrev Holds : Result Exn Fields → Type 0
    Holds payload =
        (reported b artifact_path reply ≡ named artifact_path payload)
        × (reported b artifact_url reply ≡ named artifact_url payload)

    completion-Decided :
        (payload : Fields) → Holds (ok payload) → Decided reply (completion b job remote_id payload)
    unfolding completion
    completion-Decided payload h = delivered-Decided reply remote_id payload _ _ _ h.0 h.1

    decide_status-Decided :
        (payload : Fields) (status : String)
        → Holds (ok payload)
        → Decided reply (decide_status b job remote_id payload status)
    unfolding upper
    decide_status-Decided payload status h =
        let finished = completion b job remote_id payload in
        let failing = answer (remote_failure b job remote_id payload) in
        let ended = if elem status finished_words then finished else again in
        if-Decided (elem status waiting_words) again
          (if elem status failed_words then failing else ended) tt
          (if-Decided (elem status failed_words) failing ended (refl, inl refl)
            (if-Decided (elem status finished_words) finished again (completion-Decided payload h)
              tt))

    abbrev pub Decides : Result Exn Decision → Type 0
    Decides (ok d) = Decided reply d
    Decides (raised x) = Unit

    decide_reply-Decides :
        (status : ℕ) (payload : Result Exn Fields)
        → Holds payload
        → Decides (decide_reply b job remote_id status payload)
    unfolding decide http_error_result
    decide_reply-Decides status (raised e) h = tt
    decide_reply-Decides status (ok payload) h = elim (Bool-cases (leb 400 status)) [
      | inl bad ↦ rw bad (refl, inl refl)
      | inr good ↦ rw good (decide_status-Decided payload (status_of b payload) h)
    ]

  pub decision_of-Decides :
      (remote_id : String) (reply : Reply)
      → Decides reply remote_id (decision_of b job remote_id reply)
  unfolding decision_of
  decision_of-Decides remote_id (response status body) =
      decide_reply-Decides (response status body) remote_id status (fields_of (read_json b body))
        (refl, refl)
  decision_of-Decides remote_id (client_error e) = (refl, inl refl)
  decision_of-Decides remote_id (broken e) = tt
