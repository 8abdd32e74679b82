-- ===== src/Runner/Limits.antt =====
-- services/worker_runner.py: the downloads and the directories that the parts of `handle` use.
use mix_saving_bot.Common.{
  ℕ, zero, suc, ◌+◌, ◌≤◌, String, ◌≡◌, inl, inr, Option, none, some, List, [], ◌∷◌, ◌++◌, arith,
  Bool-cases, length, length-append,
}
use mix_saving_bot.Common.Exec.{Exec, Result, ok, raised, pure, ◌>>◌, Post, Triple, Triple-bind}
use mix_saving_bot.Contracts.{JobRecord, JobOutputRef, CacheEntry}
use mix_saving_bot.Runner.World.{
  Exn, CacheStore, Item, DownloadJobContext, Outcome, items, timed_out, transient, fatal, crashed,
  Env, World, inc_metric, notify_row, notify_job,
}
use mix_saving_bot.Runner.Handle.{
  fail, call_download, settle, give_up, put_cache, fetch, complete, deliver,
}

-- the working directories, and a bound on the downloads begun
abbrev pub Using : {c : CacheStore} → List String → ℕ → World c → Type 0
Using dirs n w = (w.work_dirs ≡ dirs) × (length w.calls ≤ n)

-- the action keeps both, whether it returns or raises
abbrev pub Stays : {c : CacheStore} {A : Type 0} → List String → ℕ → Exec Exn (World c) A → Type 0
Stays dirs n m = Triple (Using dirs n) m (λ _. Using dirs n) (Using dirs n)

module _ {c : CacheStore} (env : Env) (job : String) (dirs : List String) (n : ℕ) where
  pub notify_row-Using :
      (row : Option JobRecord) (w : World c)
      → Using dirs n w
      → Post {A = Unit {0}} (λ _. Using dirs n) (Using dirs n) (notify_row env row w)
  unfolding notify_row
  notify_row-Using none w u = u
  notify_row-Using (some row) w u = elim (Bool-cases (env.notify_raises (w.sent ++ row ∷ []))) [
    | inl bad ↦ rw bad u
    | inr good ↦ rw good u
  ]

  pub fail-Stays : (code message : String) → Stays {c = c} dirs n (fail env job code message)
  unfolding fail notify_job
  fail-Stays code message = record { at = λ w u. notify_row-Using _ _ u }

  pub complete-Stays : (outs : List JobOutputRef) → Stays {c = c} dirs n (complete env job outs)
  unfolding complete notify_job
  complete-Stays outs = record { at = λ w u. notify_row-Using _ _ u }

  returned-Stays :
      {A : Type 0} (m : Exec Exn (World c) (Unit {0})) (a : A)
      → Stays dirs n m
      → Stays dirs n (m >> pure a)
  returned-Stays m a h =
      Triple-bind (λ _. Using dirs n) m (λ _. pure a) h (λ _. record { at = λ w u. u })

  put_cache-Stays : (key path : String) → Stays {c = c} dirs n (put_cache env key path)
  unfolding put_cache
  put_cache-Stays key path = record {
    at = λ w u. keep w u (CacheStore.put_from_path c key path w.cache);
  }
    where
      keep :
          (w : World c)
          → Using dirs n w
          → (r : Result Exn CacheEntry × CacheStore.State c)
          → Post (λ _. Using dirs n) (Using dirs n) (r.0, record w { cache = r.1 })
      keep w u (ok entry, s) = u
      keep w u (raised x, s) = u

  pub deliver-Stays :
      (key : String) (o : Option (List Item)) → Stays {c = c} dirs n (deliver env job key o)
  unfolding deliver inc_metric
  deliver-Stays key none = record { at = λ w u. u }
  deliver-Stays key (some []) = record { at = λ w u. u }
  deliver-Stays key (some (primary ∷ rest)) =
      Triple-bind (λ _. Using dirs n) (put_cache env key primary.local_path) _
        (put_cache-Stays key primary.local_path)
        (λ entry.
          Triple-bind (λ _. Using dirs n) (complete env job _) _ (complete-Stays _)
            (λ _. record { at = λ w u. u }))

-- the same directories, and a bound that may grow
abbrev pub Grows :
    {c : CacheStore} {A : Type 0} → List String → ℕ → ℕ → Exec Exn (World c) A → Type 0
Grows dirs n m act = Triple (Using dirs n) act (λ _. Using dirs m) (Using dirs m)

module _ {c : CacheStore} (env : Env) (dirs : List String) where
  pub grow :
      {A : Type 0} (n m : ℕ) (act : Exec Exn (World c) A)
      → n ≤ m
      → Stays dirs n act
      → Grows dirs n m act
  grow {A = A} n m act le h = record { at = λ w u. more (act w) (h.at w u) }
    where
      more :
          (r : Result Exn A × World c)
          → Post (λ _. Using dirs n) (Using dirs n) r
          → Post (λ _. Using dirs m) (Using dirs m) r
      more (ok a, w) u = (u.0, omega arith)
      more (raised x, w) u = (u.0, omega arith)

  settle-Grows :
      (job : String) (n m : ℕ) (again : Exec Exn (World c) (Option (List Item))) (out : Outcome)
      → n ≤ m
      → Grows dirs n m again
      → Grows dirs n m (settle env job again out)
  unfolding settle
  settle-Grows job n m again (items l) le h = record { at = λ w u. (u.0, omega arith) }
  settle-Grows job n m again timed_out le h =
      grow n m _ le (returned-Stays env job dirs n _ none (fail-Stays env job dirs n _ _))
  settle-Grows job n m again transient le h = h
  settle-Grows job n m again (fatal message) le h =
      grow n m _ le (returned-Stays env job dirs n _ none (fail-Stays env job dirs n _ _))
  settle-Grows job n m again crashed le h = record { at = λ w u. (u.0, omega arith) }

  call_download-Grows :
      (n m : ℕ) (ctx : DownloadJobContext)
      → Triple
          (Using {c = c} dirs n)
          (call_download env ctx)
          (λ _. Using dirs (suc n))
          (Using dirs m)
  unfolding call_download
  call_download-Grows n m ctx = record {
    at = λ w u. (u.0, omega (arith, length-append w.calls (ctx ∷ [])));
  }

  give_up-Stays : (job : String) (n : ℕ) → Stays {c = c} dirs n (give_up env job)
  unfolding give_up
  give_up-Stays job n = returned-Stays env job dirs n _ none (fail-Stays env job dirs n _ _)

  -- each round of the loop begins one download
  pub fetch-Grows :
      (r n m : ℕ) (ctx : DownloadJobContext)
      → n + suc r ≤ m
      → Grows {c = c} dirs n m (fetch env r ctx)
  unfolding fetch
  fetch-Grows zero n m ctx le =
      Triple-bind (λ _. Using dirs (suc n)) (call_download env ctx) _ (call_download-Grows n m ctx)
        (λ out.
          settle-Grows ctx.job_id (suc n) m _ out (omega arith)
            (grow (suc n) m _ (omega arith) (give_up-Stays ctx.job_id (suc n))))
  fetch-Grows (suc r) n m ctx le =
      Triple-bind (λ _. Using dirs (suc n)) (call_download env ctx) _ (call_download-Grows n m ctx)
        (λ out.
          settle-Grows ctx.job_id (suc n) m _ out (omega arith)
            (fetch-Grows r (suc n) m ctx (omega arith)))
