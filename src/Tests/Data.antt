-- ===== src/Tests/Data.antt =====
-- Test data: chats, jobs, a cache in memory, and a downloader that fails once.
use mix_saving_bot.Common.{
  ◌==◌, ◌+◌, String, Bool, true, false, none, some, List, [], ◌∷◌, string_eq, nat_eq,
}
use mix_saving_bot.Jobs.Waiter.{init as waiter_init}
use mix_saving_bot.Metrics.{empty}
use mix_saving_bot.Common.Exec.{ok}
use mix_saving_bot.Common.Dict.{Dict, get, put}
use mix_saving_bot.Contracts.{
  SubmitDownloadRequest, running, succeeded, QueueMessage, CacheEntry, queued, pos, JobRecord,
}
use mix_saving_bot.Jobs.Repository.{make_job_record}
use mix_saving_bot.Jobs.Service.{JobService}
use mix_saving_bot.Runner.World.{
  items, transient, World, Outcome, DownloadJobContext, Env, CacheStore,
}
use mix_saving_bot.Sanitize.{UrlLibrary}
use mix_saving_bot.Queue.Types.{Job}

abbrev pub request : SubmitDownloadRequest
request = record {
  source_url = " https://youtu.be/a ";
  correlation_id = "c1";
  chat = record { chat_id = pos 7; user_id = pos 8; locale = none; reply_to_message_id = none };
  requested_format_id = some "audio";
}

abbrev pub waiting_job : JobRecord
waiting_job = make_job_record 10 "j1" queued request (some "k1")

abbrev pub finished_job : JobRecord
finished_job = make_job_record 10 "j1" succeeded request (some "k1")

abbrev pub service_of : JobRecord → JobService
service_of rec = record {
  repo = ("j0", make_job_record 5 "j0" running request none) ∷ (rec.job_id, rec) ∷ [];
  waiter = some (waiter_init 4);
}

abbrev pub blob : String → CacheEntry
blob key = record {
  cache_key = key;
  local_path = "/cache/mixdl_a";
  byte_size = 12;
  created_at_unix = 3;
  content_hash = none;
}

abbrev pub memory_store : CacheStore
memory_store = record {
  State = Dict String CacheEntry;
  get = λ key s. ok (get key s);
  put_from_path = λ key path s. (ok (blob key), put key (blob key) s);
}

abbrev pub url_library : UrlLibrary
url_library = record {
  urlparse =
      λ s. some (record { scheme = "https"; netloc = "youtu.be"; hostname = some "youtu.be" });
  sha256_hex = λ s. s;
  repr = λ s. s;
}

abbrev pub first_fails : List DownloadJobContext → Outcome
first_fails (_ ∷ []) = transient
first_fails _ = items (record { local_path = "/tmp/a.mp3"; mime_type = some "audio/mpeg" } ∷ [])

abbrev pub env_of : (List JobRecord → Bool) → Env
env_of raises = record {
  lib = url_library;
  constraints = record {
    max_duration_sec = 7200;
    max_file_size_bytes = 2000;
    allowed_hosts = "youtu.be" ∷ [];
  };
  download = first_fails;
  notify_raises = raises;
  time = λ n. 100 + n;
  monotonic = λ n. n;
  temp_work_dir = λ job_id. some job_id;
  rmtree_fails = λ dir. dir == "j1";
}

abbrev pub quiet : List JobRecord → Bool
quiet sent = false

abbrev pub noisy : List JobRecord → Bool
noisy (_ ∷ []) = true
noisy sent = false

abbrev pub world_of : JobRecord → Dict String CacheEntry → World memory_store
world_of rec cache = record {
  service = service_of rec;
  cache = cache;
  metrics = empty;
  sent = [];
  calls = [];
  work_dirs = [];
  readings = 0;
}

abbrev pub message_of : String → QueueMessage
message_of job_id = record { job_id = job_id; correlation_id = "c1"; enqueued_at_unix = 11 }

abbrev pub queue_job : String → Job
queue_job id = record {
  id = id;
  kind = "download";
  payload = [];
  created_at = 1;
  max_attempts = 3;
  retry_on_failure = true;
}
