-- ===== src/Tests/Runner.antt =====
-- The theorems of `Runner` on concrete data.
use mix_saving_bot.Common.{
  ℕ, zero, suc, ◌≤◌, ◌≡◌, refl, ap, false, none, some, List, [], ◌∷◌, map, if◌then◌else◌, ◌==◌,
  length, string_eq, nat_eq,
}
use mix_saving_bot.Runner.Costs.{Tidy, wrapped_costs}
use mix_saving_bot.Runner.Acknowledged.{fates, state_after, handed_over, subscribe_stream-fields_of}
use mix_saving_bot.Runner.Redis.{Numbers, entry_of, subscribe_stream}
use mix_saving_bot.Text.{len, strip, lower}
use Prim.Native.String.{String}
use mix_saving_bot.Runner.World.{DownloadJobContext}
use mix_saving_bot.Sanitize.{canonical_cache_key, validate_for_download}
use mix_saving_bot.Jobs.Repository.{save}
use mix_saving_bot.Jobs.Service.{mark_succeeded, mark_running, get_job, as_failed}
use mix_saving_bot.Runner.Handle.{context, fetch, handle_row, handle, wrapped}
use mix_saving_bot.Runner.Steps.{Ended, Told}
use mix_saving_bot.Common.Dict.{put, Dict, get}
use mix_saving_bot.Contracts.{QueueMessage, CacheEntry}
use mix_saving_bot.Jobs.Marks.{Holds}
use mix_saving_bot.Runner.Ends.{wrapped-Ended, wrapped-Told}
use mix_saving_bot.Runner.Outcomes.{fetch-ending}
use mix_saving_bot.Common.Exec.{Exec, ok, raised}
use mix_saving_bot.Runner.Hits.{hit_record, wrapped_hit}
use mix_saving_bot.Tests.Data.{
  request, memory_store, blob, message_of, quiet, world_of, noisy, service_of, env_of, waiting_job,
}

Holds-waiting :
    (cache : Dict String CacheEntry) → Holds "j1" (world_of waiting_job cache).service waiting_job
unfolding get
Holds-waiting cache = record { found = refl; own = refl }

-- the first download fails, and the notifier refuses its first call
wrapped-Ended_example :
    Ended "j1"
      (service_of waiting_job).repo
      (wrapped (env_of noisy) (message_of "j1") (world_of waiting_job [])).1.service
wrapped-Ended_example =
    wrapped-Ended (env_of noisy) (message_of "j1") (world_of waiting_job []) waiting_job
      (Holds-waiting []) refl

wrapped-Told_example :
    Told
      (env_of quiet)
      "j1"
      (service_of waiting_job).repo
      (wrapped (env_of quiet) (message_of "j1") (world_of waiting_job [])).1.service
      (wrapped (env_of quiet) (message_of "j1") (world_of waiting_job [])).1.sent
unfolding wrapped handle handle_row get_job get validate_for_download strip lower mark_succeeded
    mark_running save put
wrapped-Told_example =
    wrapped-Told (env_of quiet) (message_of "j1") (world_of waiting_job []) waiting_job
      (Holds-waiting []) refl refl

-- the directory of the job cannot be removed
wrapped_costs_example :
    (length (wrapped (env_of quiet) (message_of "j1") (world_of waiting_job [])).1.calls ≤ 2)
    × Tidy
        (env_of quiet)
        "j1"
        []
        (wrapped (env_of quiet) (message_of "j1") (world_of waiting_job [])).1.work_dirs
wrapped_costs_example = wrapped_costs (env_of quiet) (message_of "j1") (world_of waiting_job [])

abbrev hit_cache : Dict String CacheEntry
hit_cache = ("https://youtu.be/a\naudio", blob "a") ∷ []

-- the notifier refuses the news of a cache hit
wrapped_hit_example :
    (get_job "j1"
        (wrapped (env_of noisy) (message_of "j1") (world_of waiting_job hit_cache)).1.service
      ≡ some (
          as_failed 102 "INTERNAL" "An internal error occurred."
            (hit_record (env_of noisy) 0 (blob "a") waiting_job)))
    × ((wrapped (env_of noisy) (message_of "j1") (world_of waiting_job hit_cache)).1.calls ≡ [])
unfolding get validate_for_download canonical_cache_key strip lower
wrapped_hit_example =
    wrapped_hit (env_of noisy) (message_of "j1") (world_of waiting_job hit_cache) waiting_job
      (blob "a") (Holds-waiting hit_cache) (refl, refl, refl)

abbrev download : DownloadJobContext
download = context (env_of quiet) "j1" request "/tmp/w"

-- a transient error, and then the files
fetch-ending_example :
    ((fetch {c = memory_store} (env_of quiet) 1 download (world_of waiting_job [])).1.service
      ≡ service_of waiting_job)
    × ((fetch {c = memory_store} (env_of quiet) 1 download (world_of waiting_job [])).1.calls
        ≡ download ∷ download ∷ [])
    × ((fetch {c = memory_store} (env_of quiet) 1 download (world_of waiting_job [])).0
        ≡ ok (some (record { local_path = "/tmp/a.mp3"; mime_type = some "audio/mpeg" } ∷ [])))
fetch-ending_example = fetch-ending (env_of quiet) download (world_of waiting_job [])

-- the second message makes the handler raise
abbrev refuses : QueueMessage → Exec String ℕ (Unit {0})
refuses msg n = if n == 1 then (raised "down", n) else (ok tt, suc n)

abbrev three : List QueueMessage
three = message_of "j1" ∷ message_of "j2" ∷ message_of "j3" ∷ []

-- a time is written with as many digits
abbrev ones : ℕ → String
ones zero = String.[]
ones (suc n) = String.◌∷◌ "1" (ones n)

abbrev numbers : Numbers
numbers = record { str = ones; float = λ s. some (len s) }

reads_back : (n : ℕ) → numbers.float (numbers.str n) ≡ some n
reads_back zero = refl
reads_back (suc n) = ap (λ o. elim o [ none ↦ none | some k ↦ some (suc k) ]) (reads_back n)

abbrev replies : List (List (String × QueueMessage))
replies = (("1-0", message_of "j1") ∷ []) ∷ [] ∷ (("2-0", message_of "j2") ∷ []) ∷ []

-- the handler refuses the second message, which stays unacknowledged
subscribe_stream-fields_of_example :
    subscribe_stream refuses numbers
      (λ entry_id. false)
      (λ n. false)
      5
      (map (map (entry_of numbers)) replies)
      ([], 0)
    ≡ ("1-0" ∷ [], 1)
unfolding fates state_after handed_over
subscribe_stream-fields_of_example =
    subscribe_stream-fields_of numbers reads_back refuses (λ entry_id. false) (λ n. false) 5 replies
      [] 0
