-- ===== src/Tests/Start.antt =====
-- The theorems of `Settings`, `StartUp` and `Logging` on concrete data.
use mix_saving_bot.Common.{
  ℕ, ◌≡◌, refl, false, none, some, [], ◌∷◌, ◌++◌, eq_iff, ltb, if◌then◌else◌, ◌==◌, string_eq,
  nat_eq,
}
use mix_saving_bot.Text.{strip}
use mix_saving_bot.Common.Dict.{Dict}
use mix_saving_bot.Contracts.{pos}
use mix_saving_bot.Logging.{Dumped, dumps_fine, dumps_type_error, LogRecord}
use mix_saving_bot.Settings.{default_allowed_hosts, not_list}
use mix_saving_bot.Settings.Values.{
  strip_bot_token, file, Pydantic, Env, Settings, make_settings, memory,
}
use mix_saving_bot.Settings.Checked.{IsChecked, make_settings-IsChecked}
use mix_saving_bot.StartUp.{
  open_queue, Endings, returns, raises, ended, main, opens_memory, starts_workers, polls,
}
use mix_saving_bot.StartUp.Shutdown.{main-closes, opened, all_closed}

abbrev pydantic : Pydantic
pydantic = record {
  int_of = λ s. if s == "45" then some (pos 45) else none;
  bool_of = λ s. none;
  float_of = λ s. none;
  resolve = λ s. s;
  loads = λ s. not_list;
}

abbrev env : Env
env name =
    if name == "BOT_TOKEN"
    then some " 1:token "
    else if name == "TELEGRAM_DOCUMENT_UPLOAD_TIMEOUT_SEC"
    then some "45"
    else none

abbrev settings : Settings
settings = record {
  bot_token = "1:token";
  telegram_document_upload_timeout_sec = pos 45;
  queue_backend = memory;
  redis_url = none;
  redis_queue_stream_key = "mixdl:jobs";
  redis_queue_group = "mixdl-workers";
  redis_queue_consumer_name = "worker-1";
  cache_backend = file;
  cache_root_dir = "/tmp/mix-saving-cache";
  max_concurrent_downloads = pos 2;
  download_deadline_sec = pos 600;
  max_output_bytes = pos 2000000000;
  max_duration_sec = pos 7200;
  allowed_hosts = default_allowed_hosts;
  log_level = "INFO";
  download_log_every_progress = false;
  high_water_queue_depth = pos 200;
  rate_limit_max_events = pos 35;
  rate_limit_window_seconds = pos 60;
  ytdlp_config_path = none;
}

make_settings-IsChecked_example : IsChecked settings
unfolding make_settings strip_bot_token strip
make_settings-IsChecked_example = make_settings-IsChecked pydantic env settings refl

-- the polling and the producer raise
abbrev endings : Endings
endings = record {
  polling = raises;
  worker = raises;
  producer = raises;
  consumer = returns;
  session = returns;
}

main-closes_example :
    main settings endings
    ≡ (ended raises, opened settings (opens_memory 512) ++ starts_workers ∷ polls ∷ all_closed)
unfolding open_queue strip
main-closes_example =
    main-closes settings endings (opens_memory 512) (λ e. cc ((eq_iff "1:token" "").1 e)) refl
      (record { producer = λ e. cc; consumer = λ e. cc; session = λ e. cc })

-- numbers up to 9 are JSON, other values are not
abbrev dumps : ℕ → Dumped
dumps n = if ltb n 10 then dumps_fine else dumps_type_error

abbrev log_record : LogRecord ℕ
log_record = record {
  levelname = "INFO";
  name = "bot";
  message = "hello";
  exc_info = none;
  attributes = ("msg", 1) ∷ ("level", 2) ∷ ("_hidden", 3) ∷ ("job_id", 4) ∷ ("task", 50) ∷ [];
}
