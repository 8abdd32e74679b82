-- ===== src/Jobs/Waiting.antt =====
-- services/jobs/terminal_waiter.py: the future that `subscribe` hands out to a chat handler.
use mix_saving_bot.Common.{
  ℕ, ◌<◌, String, ◌≡◌, refl, sym, ◌≢◌, inl, inr, true, false, ◌&&◌, Option, none, some, List, [],
  ◌∷◌, arith, eq_iff, if◌then◌else◌, ◌==◌, Bool-cases, Option-cases, length, get_elem?,
  get_elem?-append_end, get_elem?-append, get_elem?-set, string_eq, nat_eq,
}
use mathlib.Core.Path.{subst}
use mix_saving_bot.Common.Dict.{get, get-put, get-remove}
use mix_saving_bot.Contracts.{JobRecord, is_terminal}
use mix_saving_bot.Jobs.Waiter.{
  create, resolve, init, subscribe, subscribe_open, Future, pending, done, cancelled, Waiter,
  publish_terminal, cancel,
}
use mix_saving_bot.Jobs.Futures.{
  get-trim, Inv, Op, subscribes, publishes, cancels, step, run, subscribe_cases, create-Inv,
  register-Inv, run-init-Inv, step-Inv, resolve_other, resolve_hit, resolve_done,
}

-- A handler waits on `f` for the end of `job`.
pub record Watching (job : String) (f : ℕ) (w : Waiter) : Type 0 where
  pub registered : get job w.futures ≡ some f
  pub open' : get_elem? w.loop f ≡ some pending

-- the state of `f` after the operations: the first terminal record of the job, if there is one
abbrev pub first_end : String → List Op → Option JobRecord
first_end job [] = none
first_end job (publishes rec ∷ os) =
    if is_terminal rec.status && rec.job_id == job then some rec else first_end job os
first_end job (subscribes _ _ ∷ os) = first_end job os
first_end job (cancels _ ∷ os) = first_end job os

abbrev pub outcome : Option JobRecord → Future
outcome none = pending
outcome (some rec) = done rec

-- nobody gives up on `f`
abbrev pub NotCancelled : ℕ → List Op → Type 0
NotCancelled f [] = Unit
NotCancelled f (cancels g ∷ os) = (f ≢ g) × NotCancelled f os
NotCancelled f (subscribes _ _ ∷ os) = NotCancelled f os
NotCancelled f (publishes _ ∷ os) = NotCancelled f os

step-Watching :
    (job : String) (f : ℕ) (w : Waiter) (o : Op)
    → Inv w
    → Watching job f w
    → NotCancelled f (o ∷ [])
    → first_end job (o ∷ []) ≡ none
    → Watching job f (step w o)
unfolding step
step-Watching job f w (subscribes k snapshot) v h n e =
    subscribe_cases (Watching job f) k snapshot w h
      (λ g. record {
        registered = h.registered;
        open' = get_elem?-append w.loop (g ∷ []) f h.open';
      })
      (λ absent. record {
        registered =
            ground (arith, h.registered, get-put k job (length w.loop) w.futures, eq_iff k job);
        open' = get_elem?-append w.loop (pending ∷ []) f h.open';
      })
step-Watching job f w (publishes rec) v h n e =
    unfold publish_terminal in
    ground (
      arith,
      get-remove rec.job_id job w.futures,
      v.distinct rec.job_id job f,
      eq_iff rec.job_id job,
      resolve_other (get rec.job_id w.futures) rec w.loop f,
    )
step-Watching job f w (cancels g) v h n e =
    unfold cancel in ground (arith, get_elem?-set w.loop g f cancelled pending)

step_done :
    (f : ℕ) (rec : JobRecord) (w : Waiter) (o : Op)
    → get_elem? w.loop f ≡ some (done rec)
    → get_elem? (step w o).loop f ≡ some (done rec)
unfolding step
step_done f rec w (subscribes k snapshot) h =
    subscribe_cases (λ u. get_elem? u.loop f ≡ some (done rec)) k snapshot w h
      (λ g. get_elem?-append w.loop (g ∷ []) f h) (λ _. get_elem?-append w.loop (pending ∷ []) f h)
step_done f rec w (publishes new) h =
    unfold publish_terminal in
    ground (arith, resolve_done (get new.job_id w.futures) new rec w.loop f)
step_done f rec w (cancels g) h =
    unfold cancel in ground (arith, get_elem?-set w.loop g f cancelled pending)

step-ends :
    (job : String) (f : ℕ) (w : Waiter) (rec : JobRecord)
    → Watching job f w
    → first_end job (publishes rec ∷ []) ≡ some rec
    → get_elem? (step w (publishes rec)).loop f ≡ some (done rec)
unfolding step publish_terminal
step-ends job f w rec h e = ground (arith, eq_iff rec.job_id job, resolve_hit rec w.loop f)

run_done :
    (f : ℕ) (rec : JobRecord) (w : Waiter) (os : List Op)
    → get_elem? w.loop f ≡ some (done rec)
    → get_elem? (run w os).loop f ≡ some (done rec)
unfolding run
run_done f rec w [] h = h
run_done f rec w (o ∷ os) h = run_done f rec (step w o) os (step_done f rec w o h)

-- A future that a handler waits on has, after any operations that do not cancel it, the first
-- terminal record published for its job, and is pending while there was none.
pub run-outcome :
    (job : String) (f : ℕ) (w : Waiter) (os : List Op)
    → Inv w
    → Watching job f w
    → NotCancelled f os
    → get_elem? (run w os).loop f ≡ some (outcome (first_end job os))
unfolding run
run-outcome job f w [] v h n = h.open'
run-outcome job f w (subscribes k s ∷ os) v h n =
    run-outcome job f (step w (subscribes k s)) os (step-Inv w (subscribes k s) v)
      (step-Watching job f w (subscribes k s) v h tt refl) n
run-outcome job f w (cancels g ∷ os) v h n =
    run-outcome job f (step w (cancels g)) os (step-Inv w (cancels g) v)
      (step-Watching job f w (cancels g) v h (n.0, tt) refl) n.1
run-outcome job f w (publishes rec ∷ os) v h n =
    elim (Bool-cases (is_terminal rec.status && rec.job_id == job)) [
      | inl ends ↦
          rw ends (run_done f rec (step w (publishes rec)) os (step-ends job f w rec h (rw ends)))
      | inr other ↦ rw other (
          run-outcome job f (step w (publishes rec)) os (step-Inv w (publishes rec) v)
            (step-Watching job f w (publishes rec) v h tt (rw other)) n)
    ]

-- the future that `subscribe` hands out is registered, unless it is done already
subscribe_open-Watching :
    (job : String) (w : Waiter)
    → get_elem? (subscribe_open job w).1.loop (subscribe_open job w).0 ≡ some pending
    → Watching job (subscribe_open job w).0 (subscribe_open job w).1
unfolding subscribe_open
subscribe_open-Watching job w h = elim (Option-cases (get job w.terminal)) [
  | inr (r, e) ↦ ground (arith, get_elem?-append_end w.loop (done r))
  | inl none_cached ↦ elim (Option-cases (get job w.futures)) [
    | inl absent ↦ record {
      registered = ground (arith, eq_iff job job, get-put job job (length w.loop) w.futures);
      open' = h;
    }
    | inr (f, e) ↦ record { registered = ground arith; open' = h }
  ]
]

-- a future, and the waiter that hands it out
abbrev Registers : String → ℕ × Waiter → Type 0
Registers job r = get_elem? r.1.loop r.0 ≡ some pending → Watching job r.0 r.1

done-Registers : (job : String) (rec : JobRecord) (w : Waiter) → Registers job (create (done rec) w)
unfolding create
done-Registers job rec w h = absurd (ground (arith, h, get_elem?-append_end w.loop (done rec)))

subscribe_ended :
    (job : String) (rec : JobRecord) (w : Waiter)
    → is_terminal rec.status ≡ true
    → subscribe job (some rec) w ≡ create (done rec) w
unfolding subscribe
subscribe_ended job rec w ended = rw ended refl

subscribe_live :
    (job : String) (rec : JobRecord) (w : Waiter)
    → is_terminal rec.status ≡ false
    → subscribe job (some rec) w ≡ subscribe_open job w
unfolding subscribe
subscribe_live job rec w live = rw live refl

-- with a snapshot too: that of a finished job makes the future done
subscribe-Watching :
    (job : String) (snapshot : Option JobRecord) (w : Waiter)
    → Registers job (subscribe job snapshot w)
unfolding subscribe
subscribe-Watching job none w = subscribe_open-Watching job w
subscribe-Watching job (some rec) w = elim (Bool-cases (is_terminal rec.status)) [
  | inl ended ↦
      subst (Registers job) (sym (subscribe_ended job rec w ended)) (done-Registers job rec w)
  | inr live ↦
      subst (Registers job) (sym (subscribe_live job rec w live)) (subscribe_open-Watching job w)
]

-- the future that a handler gets after some history, and the state then
abbrev pub subscribed : ℕ → List Op → String → Option JobRecord → ℕ × Waiter
subscribed m before job snapshot = subscribe job snapshot (run (init m) before)

-- No wake-up is lost: whatever happened before, and whatever snapshot of the job is given or none, a
-- future that `subscribe` hands out pending has, after any later operations that do not cancel it,
-- the first terminal record published for its job since then, and is still pending while there was
-- none.
pub no_lost_wakeup :
    (m : ℕ) (before after : List Op) (job : String) (snapshot : Option JobRecord)
    → let r = subscribed m before job snapshot in
      get_elem? r.1.loop r.0 ≡ some pending
      → NotCancelled (subscribed m before job snapshot).0 after
      → let r = subscribed m before job snapshot in
        get_elem? (run r.1 after).loop r.0 ≡ some (outcome (first_end job after))
no_lost_wakeup m before after job snapshot h n =
    let w = run (init m) before in
    let r = subscribe job snapshot w in
    run-outcome job r.0 r.1 after
      (subscribe_cases Inv job snapshot w (run-init-Inv m before)
        (λ f. create-Inv f w (run-init-Inv m before)) (register-Inv job w (run-init-Inv m before)))
      (subscribe-Watching job snapshot w h) n

-- Who subscribes after the end has the record at once: right after a terminal record was published,
-- `subscribe` hands out a future that is done with it, if any records are remembered at all.
subscribe-publish :
    (w : Waiter) (rec : JobRecord)
    → Inv w
    → 0 < w.max_terminal
    → is_terminal rec.status ≡ true
    → let r = subscribe rec.job_id none (publish_terminal rec w) in
      get_elem? r.1.loop r.0 ≡ some (done rec)
unfolding subscribe publish_terminal
subscribe-publish w rec v h e = ground (
  arith,
  get-trim w.max_terminal rec.job_id rec w.terminal,
  v.bounded,
  get_elem?-append_end (resolve (get rec.job_id w.futures) rec w.loop) (done rec),
)
