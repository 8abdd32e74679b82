-- ===== src/Remote/Artifact.antt =====
-- services/remote_backend.py: `_save_remote_file`, and what a finished job leads to.
use mix_saving_bot.Common.{
  String, true, Option, none, some, List, [], ◌∷◌, ◌++◌, leb, if◌then◌else◌, ◌==◌, string_eq,
  nat_eq,
}
use mix_saving_bot.Common.Exec.{Exec, Result, ok, raised}
use mix_saving_bot.Common.Json.{Json, Fields, object, end, or_json, get_field, text_of}
use mix_saving_bot.Common.Dict.{Dict}
use mix_saving_bot.Queue.Types.{Job, Value, TaskResult, completed}
use mix_saving_bot.Remote.Http.{
  Backend, Session, Reply, response, client_error, broken, Request, failure,
}
use mix_saving_bot.Text.{strip, prefix}
use Prim.Native.String.{◌++◌ as ◌+s◌}

-- the file is no longer there
abbrev pub unlinked : String → List String → List String
unlinked p [] = []
unlinked p (x ∷ xs) = let rest = unlinked p xs in if p == x then rest else x ∷ rest

abbrev pub copied : Backend → List Request → Reply → Result String (Unit {0})
copied b sent (response status body) =
    if leb 400 status
    then raised ("artifact fetch failed " +s (b.digits status +s (": " +s prefix 200 body)))
    else elim (b.copy_fails sent) [ none ↦ ok tt | some e ↦ raised e ]
copied b sent (client_error e) = raised e
copied b sent (broken e) = raised e

-- except BaseException: tmp_path.unlink(); raise
abbrev pub kept : String → Result String (Unit {0}) → Session → Result String String × Session
kept p (ok u) w = (ok p, w)
kept p (raised e) w = (raised e, record w { temp_files = unlinked p w.temp_files })

unfoldable pub save_remote_file : Backend → String → Exec String Session String
save_remote_file b download_url w =
    let p = b.temp_file w.temp_files in
    let sent = w.sent ++ Request.get download_url ∷ [] in
    kept p (copied b sent (b.reply sent)) (record w { sent = sent; temp_files = p ∷ w.temp_files })

-- what a reply to a poll leads to
pub data Decision : Type 0 where
  again : Decision
  answer : TaskResult → Decision
  -- the artifact is fetched from a URL, and has a name or none
  collect : String → Option String → Decision

abbrev pub artifact_of : Json → Fields
artifact_of (object d) = d
artifact_of _ = end

abbrev pub with_filename : Option String → Dict String Value → Dict String Value
with_filename none detail = detail
with_filename (some name) detail = detail ++ ("filename", Value.text name) ∷ []

abbrev pub on_disk : Backend → Job → String → String → Option String → TaskResult
on_disk b job remote_id file_path filename =
    if b.is_file file_path
    then record {
      job_id = job.id;
      status = completed;
      message = "ready";
      detail = with_filename filename (
          ("output_path", Value.text (b.path_str file_path))
          ∷ ("remote_id", Value.text remote_id)
          ∷ []);
    }
    else failure job "Backend reported a missing file on disk."
        (("error_code", Value.text "BACKEND_PROTOCOL") ∷ ("path", Value.text file_path) ∷ [])

abbrev pub fetched : Job → String → Option String → Result String String → TaskResult
fetched job remote_id filename (ok local) = record {
  job_id = job.id;
  status = completed;
  message = "ready";
  detail = with_filename filename (
      ("output_path", Value.text local)
      ∷ ("remote_id", Value.text remote_id)
      ∷ ("temp_file", Value.flag true)
      ∷ []);
}
fetched job remote_id filename (raised e) =
    failure job "Failed to download prepared artifact."
      (("error_code", Value.text "ARTIFACT_FETCH_FAILED") ∷ ("error", Value.text e) ∷ [])

-- a text that is not empty, and one that is not blank
abbrev pub some_path : Option String → Option String
some_path none = none
some_path (some s) = if s == "" then none else some s

abbrev pub some_url : Option String → Option String
some_url none = none
some_url (some s) = if strip s == "" then none else some (strip s)

-- by the path and the URL of the artifact
abbrev pub delivered :
    Backend → Job → String → Fields → Option String → Option String → Option String → Decision
delivered b job remote_id payload filename (some p) url =
    answer (on_disk b job remote_id p filename)
delivered b job remote_id payload filename none (some url) = collect url filename
delivered b job remote_id payload filename none none = answer (
    failure job "Backend completed without a retrievable artifact."
      (("error_code", Value.text "BACKEND_PROTOCOL") ∷ ("body", Value.body payload) ∷ []))

unfoldable pub completion : Backend → Job → String → Fields → Decision
unfolding get_field strip
completion b job remote_id payload =
    let artifact = artifact_of (get_field "artifact" payload) in
    let file_path = or_json (get_field "file_path" artifact) (get_field "local_path" artifact) in
    let download_url =
      or_json (or_json (get_field "download_url" artifact) (get_field "url" artifact))
        (get_field "signed_url" artifact) in
    let filename = text_of (or_json (get_field "filename" artifact) (get_field "name" artifact)) in
    delivered b job remote_id payload filename (some_path (text_of file_path))
      (some_url (text_of download_url))
