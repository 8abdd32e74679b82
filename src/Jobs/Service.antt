-- ===== src/Jobs/Service.antt =====
-- services/jobs/service.py. `now` is `time.time()`, and `fresh` the result of `new_job_id()`.
use mix_saving_bot.Common.{
  ℕ, String, Bool, true, false, Option, none, some, List, if◌then◌else◌, ◌==◌, string_eq, nat_eq,
}
use mix_saving_bot.Common.Dict.{get}
use mix_saving_bot.Contracts.{
  JobRecord, JobOutputRef, SubmitDownloadRequest, queued, running, succeeded, failed, canceled,
}
use mix_saving_bot.Jobs.Repository.{Repo, make_job_record, save, find_active_by_dedupe}
use mix_saving_bot.Jobs.Waiter.{Waiter, publish_terminal}

pub record JobService : Type 0 where
  pub repo : Repo
  pub waiter : Option Waiter

-- if dedupe_key: active = await self._repo.find_active_by_dedupe(dedupe_key)
unfoldable pub find_duplicate : Option String → Repo → Option JobRecord
find_duplicate none repo = none
find_duplicate (some key) repo = if key == "" then none else find_active_by_dedupe key repo

unfoldable pub submit :
    ℕ
    → String
    → SubmitDownloadRequest
    → Option String
    → JobService
    → (JobRecord × Bool) × JobService
submit now fresh req dedupe_key s = elim (find_duplicate dedupe_key s.repo) [
  | some active ↦ ((active, false), s)
  | none ↦
      let rec = make_job_record now fresh queued req dedupe_key in
      ((rec, true), record s { repo = save rec s.repo })
]

unfoldable pub get_job : String → JobService → Option JobRecord
get_job job_id s = get job_id s.repo

-- the fields that each call writes
abbrev pub as_running : ℕ → JobRecord → JobRecord
as_running now rec = record rec { status = running; updated_at_unix = now }

abbrev pub as_succeeded : ℕ → List JobOutputRef → JobRecord → JobRecord
as_succeeded now outputs rec = record rec {
  status = succeeded;
  outputs = some outputs;
  updated_at_unix = now;
}

abbrev pub as_failed : ℕ → String → String → JobRecord → JobRecord
as_failed now code safe_message rec = record rec {
  status = failed;
  error_code = some code;
  error_message_safe = some safe_message;
  updated_at_unix = now;
}

abbrev pub as_canceled : ℕ → JobRecord → JobRecord
as_canceled now rec = record rec { status = canceled; updated_at_unix = now }

unfoldable pub mark_running : ℕ → String → JobService → JobService
mark_running now job_id s = elim (get job_id s.repo) [
  | none ↦ s
  | some rec ↦ record s { repo = save (as_running now rec) s.repo }
]

-- if self._waiter: await self._waiter.publish_terminal(dict(rec))
abbrev pub publish : JobRecord → Option Waiter → Option Waiter
publish rec none = none
publish rec (some w) = some (publish_terminal rec w)

-- the common end of mark_succeeded, mark_failed and mark_canceled
abbrev pub store_terminal : JobRecord → JobService → JobService
store_terminal rec s = record s { repo = save rec s.repo; waiter = publish rec s.waiter }

unfoldable pub mark_succeeded : ℕ → String → List JobOutputRef → JobService → JobService
mark_succeeded now job_id outputs s = elim (get job_id s.repo) [
  | none ↦ s
  | some rec ↦ store_terminal (as_succeeded now outputs rec) s
]

unfoldable pub mark_failed : ℕ → String → String → String → JobService → JobService
mark_failed now job_id code safe_message s = elim (get job_id s.repo) [
  | none ↦ s
  | some rec ↦ store_terminal (as_failed now code safe_message rec) s
]

unfoldable pub mark_canceled : ℕ → String → JobService → JobService
mark_canceled now job_id s = elim (get job_id s.repo) [
  | none ↦ s
  | some rec ↦ store_terminal (as_canceled now rec) s
]
