-- ===== src/Remote/Deadline.antt =====
-- services/remote_backend.py: how long `execute_remote_download` runs.
use mix_saving_bot.Common.{
  ℕ, suc, ◌+◌, ◌*◌, ◌≤◌, ◌<◌, String, ◌≡◌, refl, ap, inl, inr, true, List, arith,
}
use mix_saving_bot.Queue.Types.{Job}
use mix_saving_bot.Remote.Http.{Backend, Session}
use mix_saving_bot.Remote.Poll.{poll, execute_remote_download, remote, poll_remote}
use mix_saving_bot.Remote.Paths.{execute-Holds}
use mix_saving_bot.Remote.Polls.{Ran, is_over, Ended, poll-Ended}
use mix_saving_bot.Dedupe.Processor.{status_url}

-- The clock does not run backwards, and between two polls it moves on by the time of a sleep.
pub record Clock (b : Backend) (interval first : ℕ) : Type 0 where
  pub moves : b.monotonic first ≤ b.monotonic (suc first)
  pub sleeps : (n : ℕ) → suc first ≤ n → b.monotonic n + interval ≤ b.monotonic (suc n)

module _ (b : Backend) (job : Job) (interval fuel : ℕ) (enough : b.max_wait < interval * fuel) where
  -- It is over, and few sleeps have been made since there were `sleeps`.
  abbrev Over : ℕ → ℕ → List String → Ran → Type 0
  Over readings sleeps files (r, s) =
      Clock b interval readings
      → (is_over r ≡ true) × (interval * s.sleeps ≤ interval * sleeps + (b.max_wait + interval))

  poll-Over :
      (s : Session) (remote_id poll_url : String) (r : Ran)
      → Ended b job remote_id poll_url interval
          (b.monotonic s.readings + b.max_wait)
          (b.monotonic (suc s.readings))
          s
          r
      → Over s.readings s.sleeps s.temp_files r
  poll-Over s remote_id poll_url (r, t) (over, inl same) c =
      (over, omega (arith, ap (λ n. interval * n) same))
  poll-Over s remote_id poll_url (r, t) (over, inr few) c = (over, omega (arith, few, c.moves))

  poll_remote-Over :
      (base remote_id : String) (s : Session)
      → Over s.readings s.sleeps s.temp_files
          (poll_remote b (suc fuel) job base (remote remote_id) s)
  unfolding poll_remote
  poll_remote-Over base remote_id s c =
      let s' = record s { readings = suc s.readings } in
      let deadline = b.monotonic s.readings + b.max_wait in
      let poll_url = status_url base remote_id b.jobs_path in
      poll-Over s remote_id poll_url (poll b job remote_id poll_url deadline (suc fuel) s')
        (poll-Ended b job remote_id poll_url interval deadline fuel s' c.sleeps
          (omega (arith, enough, c.moves)))
        c

  -- Whatever the backend replies, the call ends with a result or an exception: if the time that it may
  -- wait is less than `fuel` sleeps, `fuel` and one rounds of the loop are enough, and it sleeps
  -- for at most the time that it may wait and one interval.
  pub execute_remote_download_ends :
      (api_base : String) (s : Session)
      → Clock b interval s.readings
      → let r = execute_remote_download b (suc fuel) job api_base s in
        (is_over r.0 ≡ true)
        × (interval * r.1.sleeps ≤ interval * s.sleeps + (b.max_wait + interval))
  execute_remote_download_ends =
      execute-Holds b job (suc fuel) Over (λ x s c. (refl, omega arith))
        (λ message detail s c. (refl, omega arith)) poll_remote-Over
