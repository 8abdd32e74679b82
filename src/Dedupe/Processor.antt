-- ===== src/Dedupe/Processor.antt =====
-- services/remote_backend.py: the processor of `build_download_processor`, which pairs a reservation
-- with a commit or an abort. `execute_remote_download` is a parameter: it returns a result or raises.
use mix_saving_bot.Common.{
  ◌≡◌, refl, Bool, true, false, ◌||◌, Option, none, some, List, [], ◌∷◌, arith, eq_iff,
  if◌then◌else◌, ◌==◌, string_eq, nat_eq,
}
use mix_saving_bot.Text.{strip, elem}
use Prim.Native.Char.{Char, code}
use Prim.Native.String.{String, ◌++◌ as ◌+s◌}
use mix_saving_bot.Common.Dict.{get, get-remove}
use mix_saving_bot.Dedupe.Exclusion.{elem-add}
use mix_saving_bot.Dedupe.Cache.{append_disk_index, JsonLibrary, DownloadCache, commit, abort}
use mix_saving_bot.Queue.Types.{JobStatus, completed}
use mix_saving_bot.Queue.Worker.{Answer, returns, crashes}

abbrev pub is_completed : JobStatus → Bool
is_completed completed = true
is_completed _ = false

-- `_run` on the cache, by what the download answers; an exception goes through
unfoldable pub settle_job :
    JsonLibrary → Option (List String) → String → Answer → DownloadCache → DownloadCache
unfolding commit abort
settle_job lib torn key (returns res) c =
    if is_completed res.status then commit lib torn key c else abort key c
settle_job lib torn key (crashes tb) c = c

-- the first of the keys that has a text
unfoldable pub pick_remote_id : (String → Option String) → List String → Option String
pick_remote_id obj [] = none
pick_remote_id obj (key ∷ keys) =
    let more = pick_remote_id obj keys in
    elim (obj key) [ none ↦ more | some val ↦ if strip val == "" then more else some (strip val) ]

abbrev pub remote_id_keys : List String
remote_id_keys = "remote_id" ∷ "id" ∷ "job_id" ∷ "task_id" ∷ []

-- path.startswith("/")
abbrev pub starts_slash : String → Bool
starts_slash String.[] = false
starts_slash (String.◌∷◌ c s) = code c == 47

-- path.rstrip("/")
abbrev pub keep_slash : Char → String → String
keep_slash c String.[] = if code c == 47 then String.[] else String.◌∷◌ c String.[]
keep_slash c (String.◌∷◌ d r) = String.◌∷◌ c (String.◌∷◌ d r)

unfoldable pub rstrip_slash : String → String
rstrip_slash String.[] = String.[]
rstrip_slash (String.◌∷◌ c s) = keep_slash c (rstrip_slash s)

-- the path of the jobs, by the value of MIX_BACKEND_JOBS_PATH
unfoldable pub jobs_path : Option String → String
jobs_path env =
    let given : String = elim env [ none ↦ "" | some s ↦ strip s ] in
    let path = if given == "" then "/api/v1/jobs" else given in
    if starts_slash path then path else "/" +s path

unfoldable pub jobs_collection_url : String → Option String → String
unfolding jobs_path
jobs_collection_url base env = base +s jobs_path env

unfoldable pub status_url : String → String → Option String → String
unfolding jobs_path rstrip_slash
status_url base remote_id env = base +s (rstrip_slash (jobs_path env) +s ("/" +s remote_id))

abbrev pub crashed : Answer → Bool
crashed (returns res) = false
crashed (crashes tb) = true

abbrev pub succeeded_with : Answer → Bool
succeeded_with (returns res) = is_completed res.status
succeeded_with (crashes tb) = false

-- After the processor has returned, nobody holds the reservation of the job's key, and the key is
-- marked as completed if the job was, and otherwise as it was before; after the download has raised,
-- the reservation is still there.
pub settle_job-holder :
    (lib : JsonLibrary) (torn : Option (List String)) (key : String) (a : Answer)
    (c : DownloadCache)
    → (get key (settle_job lib torn key a c).in_flight
        ≡ (if crashed a then get key c.in_flight else none))
      × (elem key (settle_job lib torn key a c).completed
          ≡ (succeeded_with a || elem key c.completed))
unfolding settle_job commit abort append_disk_index
settle_job-holder lib torn key (returns res) c = (
  ground (arith, get-remove key key c.in_flight, eq_iff key key),
  ground (arith, elem-add key key c.completed, eq_iff key key),
)
settle_job-holder lib torn key (crashes tb) c = (refl, refl)
