-- ===== src/Remote/Http.antt =====
-- services/remote_backend.py: the requests, what their replies are read as, and the address of the
-- backend.
use mix_saving_bot.Common.{
  ℕ, String, Bool, ◌||◌, Option, none, some, List, [], ◌∷◌, ◌++◌, if◌then◌else◌, ◌==◌, string_eq,
  nat_eq,
}
use mix_saving_bot.Common.Json.{Json, Fields, object, end, is_true, get_field}
use mix_saving_bot.Common.Exec.{Exec, Result, ok, raised}
use mix_saving_bot.Common.Dict.{Dict}
use mix_saving_bot.Dedupe.Processor.{rstrip_slash}
use mix_saving_bot.Queue.Types.{text, Job, Value, TaskResult, failed}
use mix_saving_bot.Text.{strip, upper, or_else}
use Prim.Native.String.{◌++◌ as ◌+s◌}

pub data Exn : Type 0 where
  -- `urlsplit`, and a payload that is not an object
  value_error attribute_error : Exn
  -- an exception of `aiohttp` that is no `ClientError`
  other_error : String → Exn

pub data Request : Type 0 where
  post : String → String → Dict String Value → Request
  get : String → Request

-- a reply with its status and its text, or an exception
pub data Reply : Type 0 where
  response : ℕ → String → Reply
  client_error : String → Reply
  broken : String → Reply

pub record UrlParts : Type 0 where
  pub scheme : String
  pub netloc : String
  pub path : String

pub record Backend : Type 0 where
  pub loads : String → Option Json
  -- str() of what is no text
  pub show : Json → String
  pub digits : ℕ → String
  pub urlsplit : String → Option UrlParts
  -- with an empty query and fragment
  pub urlunsplit : UrlParts → String
  -- MIX_BACKEND_JOBS_PATH
  pub jobs_path : Option String
  -- _DEFAULT_MAX_WAIT, and the time after each reading of the clock
  pub max_wait : ℕ
  pub monotonic : ℕ → ℕ
  -- the reply to the last of the requests
  pub reply : List Request → Reply
  -- str(pathlib.Path(p)), and pathlib.Path(p).is_file()
  pub path_str : String → String
  pub is_file : String → Bool
  -- tempfile.NamedTemporaryFile(delete=False, suffix=".bin"), beside the files that there are
  pub temp_file : List String → String
  -- an exception while the body of the last request is copied to a file
  pub copy_fails : List Request → Option String

pub record Session : Type 0 where
  pub sent : List Request
  pub readings : ℕ
  pub sleeps : ℕ
  pub temp_files : List String

unfoldable pub normalize_api_base : Backend → String → Result Exn String
normalize_api_base b raw = elim (b.urlsplit (strip raw)) [
  | none ↦ raised value_error
  | some parts ↦
      if parts.scheme == "" || parts.netloc == ""
      then ok ""
      else ok (b.urlunsplit (record parts { path = rstrip_slash parts.path }))
]

-- by the values of MIX_SAVING_API_BASE and MIX_SAVING_BACKEND_URL
unfoldable pub api_base_env : Backend → Option String → Option String → Result Exn String
unfolding normalize_api_base
api_base_env b api_base backend_url =
    let text_or : Option String → String → String =
      λ o d. elim o [ none ↦ d | some s ↦ or_else s d ] in
    normalize_api_base b (text_or api_base (text_or backend_url ""))

-- an empty text and one that is no JSON are read as an empty object
unfoldable pub read_json : Backend → String → Json
read_json b body =
    if body == "" then object end else elim (b.loads body) [ none ↦ object end | some j ↦ j ]

-- str(j)
abbrev pub str : Backend → Json → String
str b (Json.text s) = s
str b j = b.show j

-- str(a or s), where `s` is a text
abbrev pub str_or : Backend → Json → String → String
str_or b j s = if is_true j then str b j else s

abbrev pub failure : Job → String → Dict String Value → TaskResult
failure job message detail = record {
  job_id = job.id;
  status = failed;
  message = message;
  detail = detail;
}

-- what `payload.get` needs
abbrev pub fields_of : Json → Result Exn Fields
fields_of (object d) = ok d
fields_of _ = raised attribute_error

abbrev pub http_code : ℕ → String
http_code status =
    if status == 400
    then "INVALID_INPUT"
    else if status == 413
    then "FILE_TOO_LARGE"
    else if status == 404
    then "NOT_FOUND"
    else "BACKEND_HTTP_ERROR"

unfoldable pub http_error_result : Backend → Job → ℕ → Fields → TaskResult
unfolding get_field upper
http_error_result b job status payload =
    failure job (str_or b (get_field "message" payload) ("HTTP " +s b.digits status)) (
      (
        "error_code",
        text (or_else (upper (str_or b (get_field "error_code" payload) "")) (http_code status)),
      )
      ∷ ("http_status", Value.number status)
      ∷ ("body", Value.body payload)
      ∷ [])

abbrev pub replied : Reply → Session → Result Exn Reply × Session
replied (broken e) w = (raised (other_error e), w)
replied r w = (ok r, w)

-- async with session...(request) as resp
abbrev pub send : Backend → Request → Exec Exn Session Reply
send b request w =
    let sent = w.sent ++ request ∷ [] in replied (b.reply sent) (record w { sent = sent })
