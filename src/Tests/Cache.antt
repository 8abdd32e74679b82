-- ===== src/Tests/Cache.antt =====
-- The worker with the cache on disk, on concrete data.
use mix_saving_bot.Common.{
  ◌+◌, ◌≡◌, refl, sym, ap, ◌∙◌, inl, inr, Bool, true, false, none, some, List, [], ◌∷◌, arith,
  eq_iff, ◌==◌, Bool-cases, string_eq, nat_eq,
}
use mix_saving_bot.Runner.Loop.{run_worker_loop_lem, run_worker_loop, Looped, IsOwned}
use mix_saving_bot.Jobs.Waiter.{init as waiter_init}
use mix_saving_bot.Runner.Hits.{hit_record}
use mix_saving_bot.Common.Exec.{ok}
use mix_saving_bot.Storage.Store.{file_store-Remembers, put_in}
use mix_saving_bot.Text.{lower, strip}
use mix_saving_bot.Sanitize.{canonical_cache_key, validate_for_download}
use mix_saving_bot.Jobs.Repository.{save}
use mix_saving_bot.Common.Dict.{put, get}
use mix_saving_bot.Metrics.{empty}
use mix_saving_bot.Tests.Data.{url_library, message_of, quiet, waiting_job, env_of, service_of}
use mix_saving_bot.Storage.Store.{file_store}
use mix_saving_bot.Runner.Handle.{
  count_hit, get_cache, clean_up, read_monotonic, make_dir, recover, complete, put_cache, deliver,
  settle, call_download, fetch, download_job, serve, admit, handle_row, handle, wrapped,
}
use mix_saving_bot.Storage.FileCache.{blob_path, get_entry, put_blob, put_from_path, Disk}
use mix_saving_bot.Runner.World.{notify_row, notify_job, inc_metric, CacheStore, World}
use mix_saving_bot.Jobs.Service.{mark_succeeded, mark_running, get_job}
use mix_saving_bot.Contracts.{JobRecord, CacheEntry}
use mix_saving_bot.Runner.Again.{here, elsewhere, downloaded_once}

-- the file that the downloader has written
abbrev disk : Disk
disk = ("/tmp/a.mp3", record { size = 12; ctime = 1; mtime = 1 }) ∷ []

abbrev files : CacheStore
files = file_store (λ n. false) (λ n. n + 50) "/cache"

abbrev begin : World files
begin = record {
  service = service_of waiting_job;
  cache = record { disk = disk; puts = 0 };
  metrics = empty;
  sent = [];
  calls = [];
  work_dirs = [];
  readings = 0;
}

abbrev after_first : World files
after_first = (wrapped (env_of quiet) (message_of "j1") begin).1

-- the same link is asked for again, as a new job
abbrev asked_again : World files
asked_again = record after_first { service = service_of (record waiting_job { job_id = "j2" }) }

downloaded_once_example :
    (cached : CacheEntry) × ((CacheStore.get files
          (canonical_cache_key url_library " https://youtu.be/a " (some "audio"))
          asked_again.cache
        ≡ ok (some cached))
      × (get_job "j2" (wrapped (env_of quiet) (message_of "j2") asked_again).1.service
          ≡ some (
              hit_record
                (env_of quiet)
                asked_again.readings
                cached
                (record waiting_job { job_id = "j2" })))
      × ((wrapped (env_of quiet) (message_of "j2") asked_again).1.calls ≡ asked_again.calls))
unfolding get get_job wrapped handle handle_row admit serve download_job fetch call_download settle
    deliver put_cache complete recover make_dir read_monotonic clean_up inc_metric notify_job
    notify_row mark_running mark_succeeded save put validate_for_download canonical_cache_key strip
    lower put_in put_from_path put_blob get_entry blob_path get_cache count_hit
downloaded_once_example =
    downloaded_once (env_of quiet) (file_store-Remembers (λ n. false) (λ n. n + 50) "/cache")
      (message_of "j1") (message_of "j2") begin asked_again waiting_job _
      (record waiting_job { job_id = "j2" }) (record { found = refl; own = refl }) refl refl refl
      (elsewhere (service_of (record waiting_job { job_id = "j2" })) after_first asked_again
        (here asked_again))
      (record { found = refl; own = refl }) refl refl refl

-- a notifier that takes nothing
abbrev deaf : List JobRecord → Bool
deaf sent = true

abbrev one_waiting : World files
one_waiting = record begin {
  service = record { repo = ("j1", waiting_job) ∷ []; waiter = some (waiter_init 4) };
}

one_waiting-IsOwned : IsOwned one_waiting.service
unfolding get
one_waiting-IsOwned = record {
  own = λ id rec found. elim (Bool-cases ("j1" == id)) [
    | inl same ↦
        let here : "j1" ≡ id = ground (arith, same, eq_iff "j1" id) in
        let row : some waiting_job ≡ some rec = ground (arith, found, same) in
        ap (λ o. elim o [ none ↦ "" | some r ↦ r.job_id ]) (sym row) ∙ here
    | inr other ↦ absurd (ground (arith, found, other))
  ];
}

-- the loop stops after the first message, and its job has failed
run_worker_loop_lem_example :
    Looped
      (env_of deaf)
      (λ n. false)
      (message_of "j1" ∷ message_of "j1" ∷ [])
      0
      (run_worker_loop
        (env_of deaf)
        (λ n. false)
        (message_of "j1" ∷ message_of "j1" ∷ [])
        0
        one_waiting)
run_worker_loop_lem_example =
    run_worker_loop_lem (env_of deaf) (λ n. false) (message_of "j1" ∷ message_of "j1" ∷ []) 0
      one_waiting one_waiting-IsOwned
