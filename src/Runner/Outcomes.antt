-- ===== src/Runner/Outcomes.antt =====
-- services/worker_runner.py: which end a job comes to, by what the downloader, the cache and the
-- notifier answer.
use mix_saving_bot.Common.{
  ℕ, String, ◌≡◌, refl, inl, inr, true, Option, none, some, List, [], ◌∷◌, ◌++◌, Option-cases,
}
use mix_saving_bot.Common.Exec.{Result, ok, raised, then_do}
use mix_saving_bot.Contracts.{JobRecord, QueueMessage, is_terminal}
use mix_saving_bot.Jobs.Service.{JobService, get_job, mark_failed}
use mix_saving_bot.Runner.World.{
  downloader_error, Exn, CacheStore, Item, DownloadJobContext, Outcome, items, timed_out, transient,
  fatal, crashed, Env, World, notify_row, notify_job,
}
use mix_saving_bot.Runner.Handle.{
  fail, call_download, settle, give_up, fetch, handle_row, handle, recover, wrapped,
}

-- A message for an unknown job, or for one that is finished, changes nothing: a message that is
-- delivered again does no harm.
pub wrapped_finished :
    {c : CacheStore} (env : Env) (msg : QueueMessage) (w : World c)
    → ((rec : JobRecord) → get_job msg.job_id w.service ≡ some rec → is_terminal rec.status ≡ true)
    → wrapped env msg w ≡ (ok tt, w)
unfolding wrapped handle handle_row recover
wrapped_finished env msg w h = elim (Option-cases (get_job msg.job_id w.service)) [
  | inl e ↦ rw (e, handle_row, recover)
  | inr (rec, e) ↦ rw (e, handle_row, recover) (rw (h rec e))
]

-- what the retry loop comes to: files, a failure with its code and message, or another exception
pub data Ending : Type 0 where
  files : List Item → Ending
  failure : String → String → Ending
  exception : Ending

-- the answer to a download that is not tried again
abbrev pub last_answer : Outcome → Ending
last_answer (items l) = files l
last_answer timed_out = failure "TIMEOUT" "Download took too long. Try again later."
last_answer transient = failure "DOWNLOADER_ERROR" "Temporary error while downloading. Try again."
last_answer (fatal message) = failure "UNSUPPORTED" message
last_answer crashed = exception

-- the downloads, with that of the second round
abbrev pub calls_made :
    Outcome → DownloadJobContext → List DownloadJobContext → List DownloadJobContext
calls_made transient ctx calls = calls ++ ctx ∷ []
calls_made _ ctx calls = calls

-- what the loop returns
abbrev pub Yields : Ending → Result Exn (Option (List Item)) → Type 0
Yields (files l) r = r ≡ ok (some l)
Yields exception r = r ≡ raised downloader_error
Yields (failure code message) r = Unit

-- a transient error is tried once more, and nothing else is
abbrev pub ending : Outcome → Outcome → Ending
ending transient second = last_answer second
ending first second = last_answer first

abbrev pub after_ending : ℕ → String → Ending → JobService → JobService
after_ending now job (failure code message) s = mark_failed now job code message s
after_ending now job (files l) s = s
after_ending now job exception s = s

module _ {c : CacheStore} (env : Env) where
  pub service-notify_row :
      (row : Option JobRecord) (w : World c)
      → ((notify_row env row w).1.service ≡ w.service) × ((notify_row env row w).1.calls ≡ w.calls)
  unfolding notify_row
  service-notify_row none w = (refl, refl)
  service-notify_row (some row) w = (refl, refl)

  early_return :
      (r : Result Exn (Unit {0}) × World c) (a : Option (List Item))
      → (then_do r (λ _ w. (ok a, w))).1 ≡ r.1
  early_return (ok u, w) a = refl
  early_return (raised x, w) a = refl

  -- `mark_failed`, the notification and the early return
  abbrev Fails :
      (World c → Result Exn (Option (List Item)) × World c) → String → String → String → Type 0
  Fails m job code message =
      (w : World c)
      → ((m w).1.service ≡ mark_failed (env.time w.readings) job code message w.service)
        × ((m w).1.calls ≡ w.calls)

  fail-Fails :
      (job code message : String)
      → Fails (λ w. then_do (fail env job code message w) (λ _ v. (ok none, v))) job code message
  unfolding fail notify_job
  fail-Fails job code message w =
      rw (early_return (fail env job code message w) none) (service-notify_row _ _)

  -- a round of the loop, the answer of the next one being given
  abbrev Round : Outcome → World c → Result Exn (Option (List Item)) × World c → String → Type 0
  Round out w r job =
      (r.1.service ≡ after_ending (env.time w.readings) job (last_answer out) w.service)
      × (r.1.calls ≡ w.calls)
      × Yields (last_answer out) r.0

  last-Round :
      (job : String) (out : Outcome) (w : World c)
      → Round out w (settle env job (give_up env job) out w) job
  unfolding settle give_up
  last-Round job (items l) w = (refl, refl, refl)
  last-Round job timed_out w = (((fail-Fails job _ _) w).0, ((fail-Fails job _ _) w).1, tt)
  last-Round job transient w = (((fail-Fails job _ _) w).0, ((fail-Fails job _ _) w).1, tt)
  last-Round job (fatal message) w = (((fail-Fails job _ _) w).0, ((fail-Fails job _ _) w).1, tt)
  last-Round job crashed w = (refl, refl, refl)

  -- the second round, with its download
  second-Round :
      (ctx : DownloadJobContext) (w : World c)
      → Round
          (env.download (w.calls ++ ctx ∷ []))
          (record w { calls = w.calls ++ ctx ∷ [] })
          (fetch env 0 ctx w)
          ctx.job_id
  unfolding fetch call_download
  second-Round ctx w = last-Round ctx.job_id (env.download (w.calls ++ ctx ∷ [])) _

  first_round :
      (ctx : DownloadJobContext) (first : Outcome) (w : World c)
      → let second = env.download (w.calls ++ ctx ∷ []) in
        let r = settle env ctx.job_id (fetch env 0 ctx) first w in
        (r.1.service
          ≡ after_ending (env.time w.readings) ctx.job_id (ending first second) w.service)
        × (r.1.calls ≡ calls_made first ctx w.calls)
        × Yields (ending first second) r.0
  unfolding settle give_up
  first_round ctx (items l) w = (refl, refl, refl)
  first_round ctx timed_out w =
      (((fail-Fails ctx.job_id _ _) w).0, ((fail-Fails ctx.job_id _ _) w).1, tt)
  first_round ctx transient w = second-Round ctx w
  first_round ctx (fatal message) w =
      (((fail-Fails ctx.job_id _ _) w).0, ((fail-Fails ctx.job_id _ _) w).1, tt)
  first_round ctx crashed w = (refl, refl, refl)

-- The retry loop, for all answers of the downloader: a transient error is tried once more and
-- nothing else is; a timeout, a second transient error and a fatal error mark the job failed, each
-- with its code and message, also if the notifier raises; files and other exceptions leave the
-- records alone; the loop returns the files, and passes the exception on.
pub fetch-ending :
    {c : CacheStore} (env : Env) (ctx : DownloadJobContext) (w : World c)
    → let made = w.calls ++ ctx ∷ [] in
      let first = env.download made in
      let second = env.download (made ++ ctx ∷ []) in
      let r = fetch env 1 ctx w in
      (r.1.service ≡ after_ending (env.time w.readings) ctx.job_id (ending first second) w.service)
      × (r.1.calls ≡ calls_made first ctx made)
      × Yields (ending first second) r.0
unfolding fetch call_download
fetch-ending env ctx w =
    let made = w.calls ++ ctx ∷ [] in
    first_round env ctx (env.download made) (record w { calls = made })
