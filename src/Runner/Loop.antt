-- ===== src/Runner/Loop.antt =====
-- services/worker_runner.py: `run_worker_loop` on a queue in memory, without a stop event.
use mix_saving_bot.Common.{
  ℕ, suc, ◌+◌, String, ◌≡◌, refl, sym, ap, ◌∙◌, ◌≢◌, ◌⊎◌, inl, inr, Bool, true, false, Option, none,
  some, List, [], ◌∷◌, ◌++◌, arith, eq_iff, ◌==◌, Bool-cases, Option-cases, length, string_eq,
  nat_eq,
}
use mix_saving_bot.Common.All.{All}
use mix_saving_bot.Runner.Ends.{wrapped-Ended}
use mix_saving_bot.Runner.Outcomes.{wrapped_finished}
use mix_saving_bot.Runner.Steps.{Ended}
use mix_saving_bot.Runner.Handle.{handle, fail, recover, wrapped}
use mix_saving_bot.Contracts.{QueueMessage, is_terminal, JobRecord}
use mix_saving_bot.Runner.World.{
  notifier_error, notify_job, World, Exn, notify_row, Env, CacheStore,
}
use mix_saving_bot.Common.Dict.{get}
use mix_saving_bot.Common.Exec.{Result, ok, raised}
use mix_saving_bot.Jobs.Service.{JobService, get_job}
use mix_saving_bot.Runner.Consumer.{LoopState, returned, waits, raises, subscribe}

-- where the loop is, with the messages that are still there and the calls of `task_done`
abbrev pub LoopRun : CacheStore → Type 0
LoopRun c = LoopState Exn × (World c × (List QueueMessage × ℕ))

module _ {c : CacheStore} (env : Env) (closed : ℕ → Bool) where
  -- by the messages that arrive, and the calls of `task_done` so far
  unfoldable pub run_worker_loop : List QueueMessage → ℕ → World c → LoopRun c
  unfolding subscribe
  run_worker_loop msgs tasks w = subscribe closed (wrapped env) msgs tasks w

-- each record stands under its own id
pub record IsOwned (s : JobService) : Type 0 where
  pub own : (id : String) (rec : JobRecord) → get id s.repo ≡ some rec → rec.job_id ≡ id

-- there is no such job, or it has ended
abbrev pub IsSettled : JobService → String → Type 0
IsSettled s id =
    (get id s.repo ≡ none)
    ⊎ ((rec : JobRecord) × ((get id s.repo ≡ some rec) × (is_terminal rec.status ≡ true)))

-- Where the loop is in the end: it has found the consumer closed, it waits as all messages are taken,
-- or the last notification has raised.
abbrev pub LoopEnd : {c : CacheStore} → Env → (ℕ → Bool) → LoopRun c → Type 0
LoopEnd env closed r =
    ((r.0 ≡ returned) × (closed r.1.1.1 ≡ true))
    ⊎ ((r.0 ≡ waits) × (r.1.1.0 ≡ []))
    ⊎ ((r.0 ≡ raises notifier_error) × (env.notify_raises r.1.0.sent ≡ true))

module _ {c : CacheStore} (env : Env) where
  -- an exception is that of the last notification
  abbrev Blamed : Result Exn (Unit {0}) × World c → Type 0
  Blamed p = (p.0 ≡ ok tt) ⊎ ((p.0 ≡ raised notifier_error) × (env.notify_raises p.1.sent ≡ true))

  notify_row-Blamed : (row : Option JobRecord) (w : World c) → Blamed (notify_row env row w)
  unfolding notify_row
  notify_row-Blamed none w = inl refl
  notify_row-Blamed (some row) w = elim (Bool-cases (env.notify_raises (w.sent ++ row ∷ []))) [
    | inl bad ↦ inr (rw bad refl, bad)
    | inr good ↦ inl (rw good refl)
  ]

  recover-Blamed : (job : String) (p : Result Exn (Unit {0}) × World c) → Blamed (recover env job p)
  unfolding recover fail notify_job
  recover-Blamed job (ok u, w) = inl refl
  recover-Blamed job (raised x, w) = notify_row-Blamed _ _

  wrapped-Blamed : (msg : QueueMessage) (w : World c) → Blamed (wrapped env msg w)
  unfolding wrapped
  wrapped-Blamed msg w = recover-Blamed msg.job_id (handle env msg w)

-- what one message does to the records
record Settles (job : String) (s s' : JobService) : Type 0 where
  owned : IsOwned s'
  self : IsSettled s' job
  others : (id : String) → IsSettled s id → IsSettled s' id

module _ (job : String) (s s' : JobService) (o : IsOwned s) where
  Ended-Settles : Ended job s.repo s' → Settles job s s'
  Ended-Settles e = record {
    owned = record {
      own = λ id rec found. elim (Bool-cases (job == id)) [
        | inl same ↦
            let here : job ≡ id = ground (arith, same, eq_iff job id) in
            cc (here, found, e.tracks.holds.found, e.tracks.holds.own)
        | inr other ↦
            let apart : job ≢ id = ground (arith, other, eq_iff job id) in
            o.own id rec (sym (e.tracks.rest id apart) ∙ found)
      ];
    };
    self = inr (e.tracks.rec, (e.tracks.holds.found, e.ended));
    others = λ id h. elim (Bool-cases (job == id)) [
      | inl same ↦
          let here : job ≡ id = ground (arith, same, eq_iff job id) in
          inr (e.tracks.rec, (ap (λ k. get k s'.repo) (sym here) ∙ e.tracks.holds.found, e.ended))
      | inr other ↦
          let apart : job ≢ id = ground (arith, other, eq_iff job id) in
          rw (e.tracks.rest id apart) h
    ];
  }

module _ {c : CacheStore} (env : Env) (msg : QueueMessage) (w : World c)
    (o : IsOwned w.service) where
  unchanged_Settles :
      IsSettled w.service msg.job_id
      → wrapped env msg w ≡ (ok tt, w)
      → Settles msg.job_id w.service (wrapped env msg w).1.service
  unchanged_Settles h e = rw e (record { owned = o; self = h; others = λ id k. k })

  wrapped-Settles : Settles msg.job_id w.service (wrapped env msg w).1.service
  unfolding get_job
  wrapped-Settles = elim (Option-cases (get msg.job_id w.service.repo)) [
    | inl gone ↦
        unchanged_Settles (inl gone)
          (wrapped_finished env msg w (λ rec found. absurd (cc (gone, found))))
    | inr (rec, found) ↦ elim (Bool-cases (is_terminal rec.status)) [
      | inl ended ↦
          unchanged_Settles (inr (rec, (found, ended)))
            (wrapped_finished env msg w (λ other same. cc (ended, found, same)))
      | inr live ↦ Ended-Settles msg.job_id w.service (wrapped env msg w).1.service o (
          wrapped-Ended env msg w rec (record { found = found; own = o.own msg.job_id rec found })
            live)
    ]
  ]

module _ {c : CacheStore} (env : Env) (closed : ℕ → Bool) where
  -- the messages that were taken, the calls of `task_done`, and where the loop is
  abbrev pub Looped : List QueueMessage → ℕ → LoopRun c → Type 0
  Looped msgs tasks r =
      (taken : List QueueMessage) × ((msgs ≡ taken ++ r.1.1.0)
        × (r.1.1.1 ≡ tasks + length taken)
        × All (λ m. IsSettled r.1.0.service m.job_id) taken
        × LoopEnd env closed r)

  loop_closed :
      (msg : QueueMessage) (rest : List QueueMessage) (tasks : ℕ) (w : World c)
      → closed tasks ≡ true
      → run_worker_loop env closed (msg ∷ rest) tasks w ≡ (returned, (w, (msg ∷ rest, tasks)))
  unfolding run_worker_loop subscribe
  loop_closed msg rest tasks w shut = rw (shut, subscribe) refl

  loop_goes :
      (msg : QueueMessage) (rest : List QueueMessage) (tasks : ℕ) (w : World c)
      → closed tasks ≡ false
      → (wrapped env msg w).0 ≡ ok tt
      → run_worker_loop env closed (msg ∷ rest) tasks w
        ≡ run_worker_loop env closed rest (suc tasks) (wrapped env msg w).1
  unfolding run_worker_loop subscribe
  loop_goes msg rest tasks w open' fine = rw (open', subscribe) (rw (fine, subscribe) refl)

  loop_stops :
      (msg : QueueMessage) (rest : List QueueMessage) (tasks : ℕ) (w : World c) (x : Exn)
      → closed tasks ≡ false
      → (wrapped env msg w).0 ≡ raised x
      → run_worker_loop env closed (msg ∷ rest) tasks w
        ≡ (raises x, ((wrapped env msg w).1, (rest, suc tasks)))
  unfolding run_worker_loop subscribe
  loop_stops msg rest tasks w x open' bad = rw (open', subscribe) (rw (bad, subscribe) refl)

  -- what was settled before stays so
  keeps_settled :
      (msgs : List QueueMessage) (tasks : ℕ) (w : World c) (id : String)
      → IsOwned w.service
      → IsSettled w.service id
      → IsSettled (run_worker_loop env closed msgs tasks w).1.0.service id
  unfolding run_worker_loop subscribe
  keeps_settled [] tasks w id o h = h
  keeps_settled (msg ∷ rest) tasks w id o h =
      let s = wrapped-Settles env msg w o in
      elim (Bool-cases (closed tasks)) [
        | inl shut ↦ rw (loop_closed msg rest tasks w shut) h
        | inr open' ↦ elim (wrapped-Blamed env msg w) [
          | inl fine ↦
              rw (loop_goes msg rest tasks w open' fine)
                (keeps_settled rest (suc tasks) (wrapped env msg w).1 id s.owned (s.others id h))
          | inr (bad, told) ↦ rw (loop_stops msg rest tasks w _ open' bad) (s.others id h)
        ]
      ]

  -- From records that stand under their own ids, the loop takes the messages that arrive in order, with
  -- one call of `task_done` for each. Each job that a taken message names has ended, if it exists. The
  -- loop returns only when it finds the consumer closed, and waits only when all messages that have
  -- arrived are taken; it ends otherwise only as the notifier has raised on the last notification.
  pub run_worker_loop_lem :
      (msgs : List QueueMessage) (tasks : ℕ) (w : World c)
      → IsOwned w.service
      → Looped msgs tasks (run_worker_loop env closed msgs tasks w)
  unfolding run_worker_loop subscribe
  run_worker_loop_lem [] tasks w o = elim (Bool-cases (closed tasks)) [
    | inl shut ↦ ([], (refl, omega arith, tt, inl (rw shut refl, shut)))
    | inr open' ↦ ([], (refl, omega arith, tt, inr (inl (rw open' refl, refl))))
  ]
  run_worker_loop_lem (msg ∷ rest) tasks w o =
      let s = wrapped-Settles env msg w o in
      let v = (wrapped env msg w).1 in
      elim (Bool-cases (closed tasks)) [
        | inl shut ↦
            rw (loop_closed msg rest tasks w shut) ([], (refl, omega arith, tt, inl (refl, shut)))
        | inr open' ↦ elim (wrapped-Blamed env msg w) [
          | inl fine ↦
              let (taken, (split, done, settled, end)) =
                run_worker_loop_lem rest (suc tasks) v s.owned in
              rw (loop_goes msg rest tasks w open' fine) (
                msg ∷ taken,
                (
                  ap (◌∷◌ msg) split,
                  omega (arith, done),
                  (keeps_settled rest (suc tasks) v msg.job_id s.owned s.self, settled),
                  end,
                ),
              )
          | inr (bad, told) ↦
              rw (loop_stops msg rest tasks w _ open' bad)
                (msg ∷ [], (refl, omega arith, (s.self, tt), inr (inr (refl, told))))
        ]
      ]
