-- ===== src/Jobs/Marks.antt =====
-- services/jobs/service.py: each `mark_*` call, read back through `get_job`.
use mix_saving_bot.Common.{ℕ, String, ◌≡◌, some, List, if◌then◌else◌, ◌==◌, string_eq, nat_eq}
use mix_saving_bot.Common.Dict.{get, get-put}
use mix_saving_bot.Contracts.{JobRecord, JobOutputRef}
use mix_saving_bot.Jobs.Repository.{save}
use mix_saving_bot.Jobs.Service.{
  JobService, mark_running, mark_succeeded, mark_failed, mark_canceled, as_running, as_succeeded,
  as_failed, as_canceled,
}

-- the record of `job` is there, under its own id
pub record Holds (job : String) (s : JobService) (rec : JobRecord) : Type 0 where
  pub found : get job s.repo ≡ some rec
  pub own : rec.job_id ≡ job

module _ {job : String} {s : JobService} {rec : JobRecord} (h : Holds job s rec) (k : String) where
  pub get-mark_running :
      (now : ℕ)
      → get k (mark_running now job s).repo
        ≡ (if job == k then some (as_running now rec) else get k s.repo)
  unfolding mark_running save
  get-mark_running now = rw (h.found, mark_running) (rw (h.own) (get-put job k _ s.repo))

  pub get-mark_succeeded :
      (now : ℕ) (outputs : List JobOutputRef)
      → get k (mark_succeeded now job outputs s).repo
        ≡ (if job == k then some (as_succeeded now outputs rec) else get k s.repo)
  unfolding mark_succeeded save
  get-mark_succeeded now outputs =
      rw (h.found, mark_succeeded) (rw (h.own) (get-put job k _ s.repo))

  pub get-mark_failed :
      (now : ℕ) (code message : String)
      → get k (mark_failed now job code message s).repo
        ≡ (if job == k then some (as_failed now code message rec) else get k s.repo)
  unfolding mark_failed save
  get-mark_failed now code message = rw (h.found, mark_failed) (rw (h.own) (get-put job k _ s.repo))

  pub get-mark_canceled :
      (now : ℕ)
      → get k (mark_canceled now job s).repo
        ≡ (if job == k then some (as_canceled now rec) else get k s.repo)
  unfolding mark_canceled save
  get-mark_canceled now = rw (h.found, mark_canceled) (rw (h.own) (get-put job k _ s.repo))
