-- ===== src/Runner/World.antt =====
-- services/worker_runner.py: what `run_worker_loop` is given, and the state that a worker changes.
-- The notifier, the downloader and the cache are `Protocol`s there: each is a function of the calls
-- made so far, or an interface, and may raise. Log lines are left out.
use mix_saving_bot.Common.{
  ℕ, suc, String, Bool, Option, none, some, List, [], ◌∷◌, ◌++◌, if◌then◌else◌, string_eq, nat_eq,
}
use mix_saving_bot.Common.Exec.{Exec, Result, ok, raised, modify}
use mix_saving_bot.Contracts.{JobRecord, CacheEntry}
use mix_saving_bot.Jobs.Service.{JobService, get_job}
use mix_saving_bot.Metrics.{Metrics, inc}
use mix_saving_bot.Sanitize.{UrlLibrary, DownloadConstraints}

pub data Exn : Type 0 where
  value_error os_error assertion_error notifier_error downloader_error : Exn

-- services/cache/protocols.py, the two methods that the worker calls
pub record CacheStore : Type 1 where
  pub State : Type 0
  pub get : String → State → Result Exn (Option CacheEntry)
  pub put_from_path : String → String → State → Result Exn CacheEntry × State

-- a dict of `downloader.download`'s list, as far as the worker reads it
pub record Item : Type 0 where
  pub local_path : String
  pub mime_type : Option String

pub record DownloadJobContext : Type 0 where
  pub job_id : String
  pub source_url : String
  pub constraints : DownloadConstraints
  pub requested_format_id : Option String
  pub work_dir : String

-- how `asyncio.wait_for(downloader.download(...))` ends
pub data Outcome : Type 0 where
  items : List Item → Outcome
  timed_out transient : Outcome
  fatal : String → Outcome
  crashed : Outcome

pub record Env : Type 0 where
  pub lib : UrlLibrary
  pub constraints : DownloadConstraints
  -- the answer to the last of the calls
  pub download : List DownloadJobContext → Outcome
  -- whether the last of the notifications raises
  pub notify_raises : List JobRecord → Bool
  -- the n-th reading of a clock
  pub time : ℕ → ℕ
  pub monotonic : ℕ → ℕ
  -- temp_work_dir; `none` where it raises
  pub temp_work_dir : String → Option String
  -- whether shutil.rmtree(..., ignore_errors=True) leaves the directory
  pub rmtree_fails : String → Bool

pub record World (c : CacheStore) : Type 0 where
  pub service : JobService
  pub cache : CacheStore.State c
  pub metrics : Metrics
  pub sent : List JobRecord
  pub calls : List DownloadJobContext
  pub work_dirs : List String
  pub readings : ℕ

module _ {c : CacheStore} where
  unfoldable pub inc_metric : String → Exec Exn (World c) (Unit {0})
  inc_metric name = modify (λ w. record w { metrics = inc name 1 w.metrics })

  -- row = await jobs.get(job_id); if row: await notifier.notify_job_update(row)
  unfoldable pub notify_row : Env → Option JobRecord → Exec Exn (World c) (Unit {0})
  notify_row env none w = (ok tt, w)
  notify_row env (some row) w =
      let sent = w.sent ++ row ∷ [] in
      (if env.notify_raises sent then raised notifier_error else ok tt, record w { sent = sent })

  unfoldable pub notify_job : Env → String → Exec Exn (World c) (Unit {0})
  unfolding notify_row
  notify_job env job_id w = notify_row env (get_job job_id w.service) w

  -- a call of a method of the service that reads the clock
  abbrev pub on_service : Env → (ℕ → JobService → JobService) → Exec Exn (World c) (Unit {0})
  on_service env f w =
      (ok tt, record w { service = f (env.time w.readings) w.service; readings = suc w.readings })
