-- ===== src/Tests/Parts.antt =====
-- The theorems of `Sanitize`, `Storage` and `Bot.Notices` on concrete data.
use mix_saving_bot.Common.{◌≡◌, refl, false, none, some, [], ◌∷◌, string_eq, nat_eq}
use mix_saving_bot.Runner.Handle.{output_of}
use mix_saving_bot.Common.Dict.{get}
use mix_saving_bot.Contracts.{CacheEntry, JobRecord}
use mix_saving_bot.Sanitize.{
  IsAllowed, DownloadConstraints, validate_for_download, validate_for_download-IsAllowed,
}
use mix_saving_bot.Storage.FileCache.{Disk, put_from_path, get_entry, delete, blob_path, put_blob}
use mix_saving_bot.Storage.Blobs.{found_again, get_entry-put_from_path}
use mix_saving_bot.Bot.Notifier.{FileLibrary, notify_job_update, send_file}
use mix_saving_bot.Bot.Notices.{IsFit, notify_job_update-IsFit}
use mix_saving_bot.Text.{strip, lower}
use mix_saving_bot.Tests.Data.{url_library, finished_job, blob}

abbrev hosts : DownloadConstraints
hosts = record {
  max_duration_sec = 7200;
  max_file_size_bytes = 2000;
  allowed_hosts = "youtu.be" ∷ [];
}

validate_for_download-IsAllowed_example : IsAllowed url_library " https://youtu.be/a " hosts
unfolding validate_for_download strip lower
validate_for_download-IsAllowed_example =
    validate_for_download-IsAllowed url_library " https://youtu.be/a " hosts refl

abbrev disk : Disk
disk = ("/tmp/a.mp3", record { size = 12; ctime = 5; mtime = 4 }) ∷ []

abbrev stored : CacheEntry
stored = record {
  cache_key = "k1";
  local_path = "/c/mixdl_k1";
  byte_size = 12;
  created_at_unix = 9;
  content_hash = none;
}

get_entry-put_from_path_example :
    (found_again (get_entry "/c" "k1" (put_from_path false 9 "/c" "k1" "/tmp/a.mp3" disk).1)
      ≡ some ("/c/mixdl_k1", 12))
    × (get_entry "/c" "k1" (delete "/c" "k1" (put_from_path false 9 "/c" "k1" "/tmp/a.mp3" disk).1)
        ≡ none)
unfolding put_from_path put_blob blob_path get
get_entry-put_from_path_example =
    get_entry-put_from_path false 9 "/c" "k1" "/tmp/a.mp3" disk stored refl

abbrev files : FileLibrary
files = record { size_of = λ path. some 12; stem = λ path. "a"; digits = λ n. "0" }

abbrev with_file : JobRecord
with_file = record finished_job { outputs = some (output_of (blob "a") none ∷ []) }

notify_job_update-IsFit_example : IsFit files with_file "/cache/mixdl_a"
unfolding notify_job_update send_file
notify_job_update-IsFit_example = notify_job_update-IsFit files with_file "/cache/mixdl_a" refl
