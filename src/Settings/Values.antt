-- ===== src/Settings/Values.antt =====
-- core/settings.py: `Settings`, with its defaults and validators. `env` is the environment without the
-- prefix MIX_; reading numbers, flags and paths is a parameter.
use mix_saving_bot.Common.{
  String, Bool, false, ◌&&◌, Option, none, some, List, leb, if◌then◌else◌, ◌==◌, string_eq, nat_eq,
}
use mix_saving_bot.Text.{strip, upper}
use mix_saving_bot.Common.Exec.{Result, ok, raised}
use mix_saving_bot.Settings.{Exn, Decoded, text, parse_allowed_hosts, default_allowed_hosts}
use mix_saving_bot.Contracts.{ℤ, pos, negsuc}

pub record Pydantic : Type 0 where
  pub int_of : String → Option ℤ
  pub bool_of : String → Option Bool
  -- a number of seconds, in ticks
  pub float_of : String → Option ℤ
  -- Path(v).expanduser().resolve()
  pub resolve : String → String
  pub loads : String → Decoded

pub data Backend : Type 0 where
  memory redis : Backend

pub data CacheBackend : Type 0 where
  file file_redis_meta : CacheBackend

pub record Settings : Type 0 where
  pub bot_token : String
  pub telegram_document_upload_timeout_sec : ℤ
  pub queue_backend : Backend
  pub redis_url : Option String
  pub redis_queue_stream_key : String
  pub redis_queue_group : String
  pub redis_queue_consumer_name : String
  pub cache_backend : CacheBackend
  pub cache_root_dir : String
  pub max_concurrent_downloads : ℤ
  pub download_deadline_sec : ℤ
  pub max_output_bytes : ℤ
  pub max_duration_sec : ℤ
  pub allowed_hosts : List String
  pub log_level : String
  pub download_log_every_progress : Bool
  pub high_water_queue_depth : ℤ
  pub rate_limit_max_events : ℤ
  pub rate_limit_window_seconds : ℤ
  pub ytdlp_config_path : Option String

pub data Error : Type 0 where
  validation_error : String → Error
  hosts_error : Exn → Error

abbrev pub Env : Type 0
Env = String → Option String

infixl 5 ◌>>=◌
abbrev pub ◌>>=◌ : {A B : Type 0} → Result Error A → (A → Result Error B) → Result Error B
ok a >>= f = f a
raised x >>= f = raised x

-- a field of the type that `parse` reads, with its default
abbrev pub parsed : {A : Type 0} → String → (String → Option A) → A → Option String → Result Error A
parsed name parse d none = ok d
parsed name parse d (some s) = elim (parse s) [
  | none ↦ raised (validation_error name)
  | some a ↦ ok a
]

abbrev pub field : {A : Type 0} → Env → String → (String → Option A) → A → Result Error A
field env name parse d = parsed name parse d (env name)

abbrev pub int_field : Pydantic → Env → String → ℤ → Result Error ℤ
int_field p env name d = field env name p.int_of d

-- `_strip_bot_token`, `_normalize_log_level`, `_expand_path`, `_optional_path`
unfoldable pub strip_bot_token : String → String
strip_bot_token s = strip s

unfoldable pub normalize_log_level : String → String
normalize_log_level s = let level = upper (strip s) in if level == "" then "INFO" else level

abbrev pub expand_path : Pydantic → Option String → String
expand_path p none = "/tmp/mix-saving-cache"
expand_path p (some s) = p.resolve s

abbrev pub optional_path : Pydantic → Option String → Option String
optional_path p none = none
optional_path p (some s) = if s == "" then none else some (p.resolve s)

-- Field(ge=30, le=3600)
unfoldable pub in_range : ℤ → Option ℤ
in_range (pos n) = if leb 30 n && leb n 3600 then some (pos n) else none
in_range (negsuc n) = none

abbrev pub bounded : (String → Option ℤ) → String → Option ℤ
bounded int_of s = elim (int_of s) [ none ↦ none | some n ↦ in_range n ]

-- the literals of `QUEUE_BACKEND`, `CACHE_BACKEND` and `JOB_REPO_BACKEND`
unfoldable pub backend_of : String → Option Backend
backend_of s = if s == "memory" then some memory else if s == "redis" then some redis else none

unfoldable pub cache_backend_of : String → Option CacheBackend
cache_backend_of s =
    if s == "file" then some file else if s == "file_redis_meta" then some file_redis_meta else none

unfoldable pub repo_of : String → Option (Unit {0})
repo_of s = if s == "memory" then some tt else none

abbrev pub hosts_of : Result Exn (List String) → Result Error (List String)
hosts_of (ok l) = ok l
hosts_of (raised x) = raised (hosts_error x)

abbrev pub allowed_hosts_of : Pydantic → Option String → Result Error (List String)
allowed_hosts_of p none = ok default_allowed_hosts
allowed_hosts_of p (some s) = hosts_of (parse_allowed_hosts p.loads (text s))

abbrev pub or_default : String → Option String → String
or_default d none = d
or_default d (some s) = s

abbrev pub token_of : Option String → String
token_of none = ""
token_of (some s) = strip_bot_token s

abbrev pub level_of : Option String → String
level_of none = "INFO"
level_of (some s) = normalize_log_level s

-- the fields but the timeout of an upload
unfoldable pub other_settings : Pydantic → Env → ℤ → Result Error Settings
unfolding backend_of cache_backend_of repo_of parse_allowed_hosts
other_settings p env timeout = do
  backend ← field env "QUEUE_BACKEND" backend_of memory
  cache ← field env "CACHE_BACKEND" cache_backend_of file
  repo ← field env "JOB_REPO_BACKEND" repo_of tt
  concurrent ← int_field p env "MAX_CONCURRENT_DOWNLOADS" (pos 2)
  deadline ← int_field p env "DOWNLOAD_DEADLINE_SEC" (pos 600)
  output ← int_field p env "MAX_OUTPUT_BYTES" (pos 2000000000)
  duration ← int_field p env "MAX_DURATION_SEC" (pos 7200)
  hosts ← allowed_hosts_of p (env "ALLOWED_HOSTS")
  every ← field env "DOWNLOAD_LOG_EVERY_PROGRESS" p.bool_of false
  depth ← int_field p env "HIGH_WATER_QUEUE_DEPTH" (pos 200)
  events ← int_field p env "RATE_LIMIT_MAX_EVENTS" (pos 35)
  window ← field env "RATE_LIMIT_WINDOW_SECONDS" p.float_of (pos 60)
  ok (record {
    bot_token = token_of (env "BOT_TOKEN");
    telegram_document_upload_timeout_sec = timeout;
    queue_backend = backend;
    redis_url = env "REDIS_URL";
    redis_queue_stream_key = or_default "mixdl:jobs" (env "REDIS_QUEUE_STREAM_KEY");
    redis_queue_group = or_default "mixdl-workers" (env "REDIS_QUEUE_GROUP");
    redis_queue_consumer_name = or_default "worker-1" (env "REDIS_QUEUE_CONSUMER_NAME");
    cache_backend = cache;
    cache_root_dir = expand_path p (env "CACHE_ROOT_DIR");
    max_concurrent_downloads = concurrent;
    download_deadline_sec = deadline;
    max_output_bytes = output;
    max_duration_sec = duration;
    allowed_hosts = hosts;
    log_level = level_of (env "LOG_LEVEL");
    download_log_every_progress = every;
    high_water_queue_depth = depth;
    rate_limit_max_events = events;
    rate_limit_window_seconds = window;
    ytdlp_config_path = optional_path p (env "YTDLP_CONFIG_PATH");
  })

-- Settings(), or the first of the errors that pydantic reports together
unfoldable pub make_settings : Pydantic → Env → Result Error Settings
unfolding in_range other_settings
make_settings p env = do
  timeout ←
      parsed "TELEGRAM_DOCUMENT_UPLOAD_TIMEOUT_SEC" (bounded p.int_of) (pos 300)
        (env "TELEGRAM_DOCUMENT_UPLOAD_TIMEOUT_SEC")
  other_settings p env timeout
