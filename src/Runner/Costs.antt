-- ===== src/Runner/Costs.antt =====
-- services/worker_runner.py: the downloads and the working directories of a whole message.
use mix_saving_bot.Common.{
  ℕ, ◌+◌, ◌≤◌, String, ◌≡◌, refl, ap, ◌⊎◌, inl, inr, true, Option, none, some, List, [], ◌∷◌, arith,
  eq_iff, if◌then◌else◌, Bool-cases, Option-cases, length, string_eq, nat_eq,
}
use mix_saving_bot.Runner.Handle.{
  fail, context, output_of, count_hit, without_dir, fetch, complete, deliver, clean_up, make_dir,
  read_monotonic, download_job, serve, get_cache, admit, handle_row, handle, recover, wrapped,
}
use mix_saving_bot.Runner.Limits.{
  Stays, Using, Grows, fail-Stays, complete-Stays, deliver-Stays, fetch-Grows,
}
use mix_saving_bot.Common.Exec.{
  Exec, Result, ok, raised, finally, then_do, ◌>>=◌, Post, Triple, Triple-bind, post_state,
}
use mix_saving_bot.Contracts.{
  JobRecord, CacheEntry, QueueMessage, SubmitDownloadRequest, is_terminal,
}
use mix_saving_bot.Jobs.Service.{mark_running}
use mix_saving_bot.Sanitize.{Verdict, accepted, sanitize_error, value_error}
use mix_saving_bot.Runner.World.{
  Exn, CacheStore, DownloadJobContext, Env, World, inc_metric, on_service,
}

-- the working directories are those that there were, or there is one more, which could not be removed
abbrev pub Tidy : Env → String → List String → List String → Type 0
Tidy env job dirs ds =
    (ds ≡ dirs)
    ⊎ ((dir : String) × (env.temp_work_dir job ≡ some dir)
        × (env.rmtree_fails dir ≡ true)
        × (ds ≡ dir ∷ dirs))

module _ {c : CacheStore} (env : Env) (job : String) (dirs : List String) where
  -- that, and a bound on the downloads begun
  abbrev pub Tidied : ℕ → World c → Type 0
  Tidied n w = Tidy env job dirs w.work_dirs × (length w.calls ≤ n)

  abbrev pub Tidies : ℕ → ℕ → Exec Exn (World c) (Unit {0}) → Type 0
  Tidies n m act = Triple (Using dirs n) act (λ _. Tidied m) (Tidied m)

  -- an action that leaves the directories alone
  tidy : (n m : ℕ) (act : Exec Exn (World c) (Unit {0})) → n ≤ m → Stays dirs n act → Tidies n m act
  tidy n m act le h = record { at = λ w u. more (act w) (h.at w u) }
    where
      more :
          (r : Result Exn (Unit {0}) × World c)
          → Post (λ _. Using dirs n) (Using dirs n) r
          → Post (λ _. Tidied m) (Tidied m) r
      more (ok a, w) u = (inl u.0, omega arith)
      more (raised x, w) u = (inl u.0, omega arith)

  -- the `finally` block takes the directory away again, if it can
  finally-Tidies :
      (m : Exec Exn (World c) (Unit {0})) (t0 n k : ℕ) (dir : String)
      → env.temp_work_dir job ≡ some dir
      → Grows (dir ∷ dirs) n k m
      → Triple (Using (dir ∷ dirs) n) (finally m (clean_up env t0 dir)) (λ _. Tidied k) (Tidied k)
  unfolding clean_up
  finally-Tidies m t0 n k dir made h = record { at = λ w u. keep (m w) (h.at w u) }
    where
      first : (ds : List String) → ds ≡ dir ∷ dirs → without_dir dir ds ≡ dirs
      first ds e = rw e (ground (arith, eq_iff dir dir))

      removed :
          (ds : List String)
          → ds ≡ dir ∷ dirs
          → Tidy env job dirs (if env.rmtree_fails dir then ds else without_dir dir ds)
      removed ds e = elim (Bool-cases (env.rmtree_fails dir)) [
        | inl left ↦ rw left (inr (dir, made, left, e))
        | inr gone ↦ rw gone (inl (first ds e))
      ]

      keep :
          (r : Result Exn (Unit {0}) × World c)
          → Post (λ _. Using (dir ∷ dirs) k) (Using (dir ∷ dirs) k) r
          → Post (λ _. Tidied k) (Tidied k) (r.0, clean_up env t0 dir r.1)
      keep (ok v, w) u = (removed w.work_dirs u.0, u.1)
      keep (raised x, w) u = (removed w.work_dirs u.0, u.1)

  fetched-Grows :
      (n : ℕ) (key : String) (ctx : DownloadJobContext)
      → Grows {c = c} dirs n (n + 2) (do fetched ← fetch env 1 ctx; deliver env job key fetched)
  fetched-Grows n key ctx =
      Triple-bind (λ _. Using dirs (n + 2)) (fetch env 1 ctx) _
        (fetch-Grows env dirs 1 n (n + 2) ctx (omega arith))
        (λ o. deliver-Stays env job dirs (n + 2) key o)

module _ {c : CacheStore} (env : Env) (job : String) (dirs : List String) (n : ℕ) where
  download_job-Tidies :
      (key : String) (req : SubmitDownloadRequest)
      → Tidies {c = c} env job dirs n (n + 2) (download_job env job key req)
  unfolding download_job read_monotonic
  download_job-Tidies key req = record {
    at = λ w u. elim (Option-cases (env.temp_work_dir job)) [
      | inl e ↦ rw (e, make_dir) (inl u.0, omega arith)
      | inr (dir, e) ↦
          rw (e, make_dir)
            ((finally-Tidies env job dirs _ (env.monotonic w.readings) n (n + 2) dir e
                (fetched-Grows env job (dir ∷ dirs) n key (context env job req dir))).at
              _ (ap (◌∷◌ dir) u.0, u.1))
    ];
  }

  serve-Tidies :
      (key : String) (req : SubmitDownloadRequest) (o : Option CacheEntry)
      → Tidies {c = c} env job dirs n (n + 2) (serve env job key req o)
  unfolding serve inc_metric
  serve-Tidies key req (some cached) = tidy env job dirs n (n + 2) _ (omega arith) (
      Triple-bind (λ _. Using dirs n) (on_service env (λ now s. mark_running now job s)) _
        (record { at = λ w u. u })
        (λ _.
          Triple-bind (λ _. Using dirs n) (complete env job (output_of cached none ∷ []))
            (λ _. count_hit) (complete-Stays env job dirs n _) (λ _. record { at = λ w u. u })))
  serve-Tidies key req none = record { at = λ w u. (download_job-Tidies key req).at _ u }

  admit-Tidies :
      (req : SubmitDownloadRequest) (v : Verdict)
      → Tidies {c = c} env job dirs n (n + 2) (admit env job req v)
  unfolding admit get_cache
  admit-Tidies req (sanitize_error code message) =
      tidy env job dirs n (n + 2) _ (omega arith) (fail-Stays env job dirs n _ _)
  admit-Tidies req value_error = record { at = λ w u. (inl u.0, omega arith) }
  admit-Tidies req accepted = record { at = λ w u. looked w u _ (CacheStore.get c _ w.cache) }
    where
      looked :
          (w : World c)
          → Using dirs n w
          → (key : String) (r : Result Exn (Option CacheEntry))
          → Post
              (λ _. Tidied env job dirs (n + 2))
              (Tidied env job dirs (n + 2))
              (then_do (r, w) (λ cached. serve env job key req cached))
      looked w u key (ok o) = (serve-Tidies key req o).at w u
      looked w u key (raised x) = (inl u.0, omega arith)

  handle_row-Tidies :
      (row : Option JobRecord) → Tidies {c = c} env job dirs n (n + 2) (handle_row env job row)
  unfolding handle_row
  handle_row-Tidies none = record { at = λ w u. (inl u.0, omega arith) }
  handle_row-Tidies (some rec) = elim (Bool-cases (is_terminal rec.status)) [
    | inl ended ↦ rw ended (record { at = λ w u. (inl u.0, omega arith) })
    | inr live ↦ rw live (admit-Tidies rec.request _)
  ]

  -- also where the news of the failure is not taken
  fail-Tidied :
      (code message : String) (w : World c)
      → Tidied env job dirs (n + 2) w
      → Post
          (λ _. Tidied env job dirs (n + 2))
          (Tidied env job dirs (n + 2))
          (fail env job code message w)
  fail-Tidied code message w u =
      more (fail env job code message w)
        ((fail-Stays env job w.work_dirs (n + 2) code message).at w (refl, u.1))
    where
      more :
          (r : Result Exn (Unit {0}) × World c)
          → Post (λ _. Using w.work_dirs (n + 2)) (Using w.work_dirs (n + 2)) r
          → Post (λ _. Tidied env job dirs (n + 2)) (Tidied env job dirs (n + 2)) r
      more (ok a, v) k = (rw (k.0) (u.0), k.1)
      more (raised x, v) k = (rw (k.0) (u.0), k.1)

  recover-Tidies :
      (r : Result Exn (Unit {0}) × World c)
      → Post (λ _. Tidied env job dirs (n + 2)) (Tidied env job dirs (n + 2)) r
      → Post (λ _. Tidied env job dirs (n + 2)) (Tidied env job dirs (n + 2)) (recover env job r)
  unfolding recover
  recover-Tidies (ok v, w) u = u
  recover-Tidies (raised x, w) u = fail-Tidied _ _ w u

-- Whatever job a message names and whatever raises, handling it begins at most two downloads. The
-- working directories are afterwards those that there were before, but for the job's own one where
-- it could not be removed.
pub wrapped_costs :
    {c : CacheStore} (env : Env) (msg : QueueMessage) (w : World c)
    → (length (wrapped env msg w).1.calls ≤ length w.calls + 2)
      × Tidy env msg.job_id w.work_dirs (wrapped env msg w).1.work_dirs
unfolding wrapped handle
wrapped_costs env msg w =
    let (dirs, calls) =
      post_state (Tidied env msg.job_id w.work_dirs (length w.calls + 2)) (wrapped env msg w) (
        recover-Tidies env msg.job_id w.work_dirs (length w.calls) _ (
          (handle_row-Tidies env msg.job_id w.work_dirs (length w.calls) _).at w
            (refl, omega arith))) in
    (calls, dirs)
