-- ===== src/Bot/Entry.antt =====
-- bot/routers/download.py: the job and the message that `enqueue_download_job` leaves.
use mix_saving_bot.Common.{
  ℕ, ◌≡◌, refl, ap, ◌∙◌, inl, inr, Bool, true, false, not, ◌&&◌, some, [], ◌∷◌, ◌++◌, if◌then◌else◌,
  Bool-cases,
}
use mix_saving_bot.Bot.Submit.{
  Exn, Front, FrontEnv, Asked, enqueue_download_job, accept, follow, submit_job, subscribe_job,
  produce, send_user_notice, is_busy, fmt_queued, request_of, key_of,
}
use mix_saving_bot.Common.Exec.{pure, Result, ok, raised, then_do}
use mix_saving_bot.Contracts.{JobRecord, QueueMessage}
use mix_saving_bot.Jobs.Service.{JobService, submit}
use mix_saving_bot.Sanitize.{accepted, validate_for_download}

abbrev pub message_of : FrontEnv → JobRecord → QueueMessage
message_of env rec = record {
  job_id = rec.job_id;
  correlation_id = env.correlation_id;
  enqueued_at_unix = env.now;
}

-- the notice is taken, and the queue is open
abbrev pub goes_on : FrontEnv → Front → JobRecord → Bool
goes_on env f rec =
    not (env.notice_raises (f.notices ++ fmt_queued rec.job_id ∷ [])) && not env.closed

module _ (env : FrontEnv) (rec : JobRecord) (f : Front) where
  abbrev Left : Bool → Type 0
  Left fresh =
      ((follow env (rec, fresh) f).1.repo ≡ f.repo)
      × ((follow env (rec, fresh) f).1.messages ≡ (
          if fresh && goes_on env f rec then f.messages ++ message_of env rec ∷ [] else f.messages))

  follow_told :
      (fresh : Bool)
      → env.notice_raises (f.notices ++ fmt_queued rec.job_id ∷ []) ≡ false
      → Left fresh
  unfolding follow subscribe_job send_user_notice produce
  follow_told false told = simp told (refl, refl)
  follow_told true told = elim (Bool-cases env.closed) [
    | inl shut ↦ simp (told, shut) (refl, refl)
    | inr is_open ↦ simp (told, is_open) (refl, refl)
  ]

  follow_untold :
      (fresh : Bool)
      → env.notice_raises (f.notices ++ fmt_queued rec.job_id ∷ []) ≡ true
      → Left fresh
  unfolding follow subscribe_job send_user_notice
  follow_untold false bad = simp bad (refl, refl)
  follow_untold true bad = simp bad (refl, refl)

  follow_lem : (fresh : Bool) → Left fresh
  follow_lem fresh =
      elim (Bool-cases (env.notice_raises (f.notices ++ fmt_queued rec.job_id ∷ []))) [
        | inl bad ↦ follow_untold fresh bad
        | inr told ↦ follow_told fresh told
      ]

-- the state of an action does not depend on what is made of its value
then_some : (r : Result Exn ℕ × Front) → (then_do r (λ fut. pure (some fut))).1 ≡ r.1
then_some (ok fut, f) = refl
then_some (raised x, f) = refl

-- The result of `jobs.submit` for a request.
abbrev pub submitted : FrontEnv → Asked → Front → (JobRecord × Bool) × JobService
submitted env a f =
    submit env.now env.fresh (request_of env a) (some (key_of env a))
      (record { repo = f.repo; waiter = some f.waiter })

-- For an allowed URL and a queue that is not busy, the repository is as the job service leaves it, and
-- the queue gets one message if the job is a new one, but none if the notice to the user raises
-- or the queue is closed: then the new job stays in the repository without a message.
pub enqueue_download_job_lem :
    (env : FrontEnv) (a : Asked) (f : Front)
    → is_busy env ≡ false
    → validate_for_download env.lib a.source_url env.constraints ≡ accepted
    → let ((rec, fresh), service) = submitted env a f in
      ((enqueue_download_job env a f).1.repo ≡ service.repo)
      × ((enqueue_download_job env a f).1.messages ≡ (
          if fresh && goes_on env f rec then f.messages ++ message_of env rec ∷ [] else f.messages))
unfolding enqueue_download_job accept submit_job
enqueue_download_job_lem env a f busy v =
    let ((rec, fresh), service) = submitted env a f in
    let r = follow env (rec, fresh) (record f { repo = service.repo }) in
    let (repo, messages) = follow_lem env rec (record f { repo = service.repo }) fresh in
    let state : (enqueue_download_job env a f).1 ≡ r.1 = simp (busy, v) (then_some r) in
    (ap (λ t. t.repo) state ∙ repo, ap (λ t. t.messages) state ∙ messages)
