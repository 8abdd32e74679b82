-- ===== src/Pool/Entry.antt =====
-- services/pipeline.py: what a call of `submit_download` leaves of the queue and of the reservations.
use mix_saving_bot.Common.{
  ℕ, String, ◌≡◌, refl, sym, ap, ◌≢◌, ◌⊎◌, inl, inr, Bool, Option, none, some, [], ◌∷◌, ◌++◌, arith,
  eq_iff, string_eq, nat_eq,
}
use mix_saving_bot.Dedupe.Exclusion.{check_disk-in_flight}
use mix_saving_bot.Dedupe.Entry.{holder-HoldsIn, HoldsIn, holder}
use mix_saving_bot.Dedupe.Pipeline.{
  on_queue, on_cache, abort_key, make_job, give_back, begin, reserve, key_of, TaskPipeline,
  submit_download, enter,
}
use mix_saving_bot.Queue.Types.{Job}
use mathlib.Core.Path.{subst}
use mix_saving_bot.Common.Dict.{get, get-put, get-remove}
use mix_saving_bot.Common.Exec.{ok, raised, Result, then_do}
use mix_saving_bot.Queue.Manager.{
  put_nowait, enqueue, begin_wait, Exn as QueueExn, Manager, queue_closed, queue_overflow,
  value_error,
}
use mix_saving_bot.Dedupe.Cache.{
  check_disk, Reservation, abort, DownloadCache, take_key, JsonLibrary, try_reserve,
  Exn as CacheExn, reserved, duplicate,
}
use mix_saving_bot.Dedupe.Reservations.{try_reserve-IsHeld, IsHeld}

abbrev pub HasCache : TaskPipeline → Type 0
HasCache p = (c : DownloadCache) × (p.cache ≡ some c)

-- the job is at the end of the queue if the call returns, and not in it otherwise
abbrev pub Queued : Job → Manager → Result QueueExn ℕ × Manager → Type 0
Queued job q (ok fut, q') = q'.queue ≡ q.queue ++ job ∷ []
Queued job q (raised x, q') = q'.queue ≡ q.queue

begin_wait-queue :
    (job : Job) (q : Manager)
    → ((fut : ℕ) → (begin_wait job q).0 ≡ ok fut → (begin_wait job q).1.queue ≡ q.queue ++ job ∷ [])
      × ((x : QueueExn) → (begin_wait job q).0 ≡ raised x → (begin_wait job q).1.queue ≡ q.queue)
unfolding begin_wait enqueue put_nowait
begin_wait-queue job q = (λ fut h. ground (arith, h), λ x h. ground (arith, h))

outcome-Queued :
    (job : Job) (q : Manager) (r : Result QueueExn ℕ × Manager)
    → ((fut : ℕ) → r.0 ≡ ok fut → r.1.queue ≡ q.queue ++ job ∷ [])
    → ((x : QueueExn) → r.0 ≡ raised x → r.1.queue ≡ q.queue)
    → Queued job q r
outcome-Queued job q (ok fut, q') h k = h fut refl
outcome-Queued job q (raised x, q') h k = k x refl

pub begin_wait-Queued : (job : Job) (q : Manager) → Queued job q (begin_wait job q)
begin_wait-Queued job q =
    let (h, k) = begin_wait-queue job q in outcome-Queued job q (begin_wait job q) h k

-- The reservations of others stay, and the job is in the queue only with its own reservation.
pub record Entered (key id : String) (job : Job) (p p' : TaskPipeline) : Type 0 where
  pub frame : (k h : String) → holder k p ≡ some h → h ≢ id → holder k p' ≡ some h
  pub cached : HasCache p'
  pub queued :
      (p'.queue.queue ≡ p.queue.queue)
      ⊎ ((p'.queue.queue ≡ p.queue.queue ++ job ∷ []) × (holder key p' ≡ some id))

module _ (key id : String) where
  abort_key-frame :
      (o : Option DownloadCache) (q q' : Manager) (k h : String)
      → holder key (record { queue = q; cache = o }) ≡ some id
      → holder k (record { queue = q; cache = o }) ≡ some h
      → h ≢ id
      → holder k (record { queue = q'; cache = abort_key key o }) ≡ some h
  unfolding holder abort
  abort_key-frame none q q' k h e f ne = cc
  abort_key-frame (some c) q q' k h e f ne =
      ground (arith, e, f, ne, get-remove key k c.in_flight, eq_iff key k)

  give_back-Entered :
      (job : Job) (r : Result QueueExn ℕ × Manager) (p : TaskPipeline)
      → HoldsIn key id p
      → Queued job p.queue r
      → Entered key id job p (give_back key (on_queue r p)).1
  unfolding holder
  give_back-Entered job (ok fut, q) p v e = record {
    frame = λ k h f ne. f;
    cached = (v.cache_of, v.is_cache);
    queued = inr (e, holder-HoldsIn key id p v);
  }
  give_back-Entered job (raised queue_closed, q) p v e = record {
    frame = λ k h f ne. f;
    cached = (v.cache_of, v.is_cache);
    queued = inl e;
  }
  give_back-Entered job (raised value_error, q) p v e = record {
    frame = λ k h f ne. f;
    cached = (v.cache_of, v.is_cache);
    queued = inl e;
  }
  give_back-Entered job (raised queue_overflow, q) p v e = record {
    frame = λ k h f ne. abort_key-frame p.cache p.queue q k h (holder-HoldsIn key id p v) f ne;
    cached = (abort key v.cache_of, ap (abort_key key) v.is_cache);
    queued = inl e;
  }

  -- a first call that keeps the queue and all reservations
  Entered-after :
      (job : Job) (p p' p'' : TaskPipeline)
      → ((k h : String) → holder k p ≡ some h → holder k p' ≡ some h)
      → p'.queue.queue ≡ p.queue.queue
      → Entered key id job p' p''
      → Entered key id job p p''
  Entered-after job p p' p'' keep same v = record {
    frame = λ k h f ne. v.frame k h (keep k h f) ne;
    cached = v.cached;
    queued =
        subst
          (λ l.
            (p''.queue.queue ≡ l)
            ⊎ ((p''.queue.queue ≡ l ++ job ∷ []) × (holder key p'' ≡ some id)))
          same v.queued;
  }

  Entered-same : (job : Job) (p : TaskPipeline) → HasCache p → Entered key id job p p
  Entered-same job p v = record { frame = λ k h f ne. f; cached = v; queued = inl refl }

  then_enter-Entered :
      (job : Job) (r : Result CacheExn Reservation × DownloadCache) (p : TaskPipeline)
      → (r.0 ≡ ok reserved → IsHeld key id r.1)
      → ((k h : String) → holder k p ≡ some h → get k r.1.in_flight ≡ some h)
      → Entered key id job p (then_do (on_cache r p) (enter key job)).1
  unfolding enter begin holder
  then_enter-Entered job (ok reserved, c) p v keep =
      let p' : TaskPipeline = record p { cache = some c } in
      Entered-after job p p' _ keep refl (
        give_back-Entered job (begin_wait job p'.queue) p'
          (record { cache_of = c; is_cache = refl; held = v refl })
          (begin_wait-Queued job p'.queue))
  then_enter-Entered job (ok duplicate, c) p v keep =
      Entered-after job p (record p { cache = some c }) _ keep refl
        (Entered-same job (record p { cache = some c }) (c, refl))
  then_enter-Entered job (raised x, c) p v keep =
      Entered-after job p (record p { cache = some c }) _ keep refl
        (Entered-same job (record p { cache = some c }) (c, refl))

-- a reservation takes none away
try_reserve-keeps :
    (lib : JsonLibrary) (e : Bool) (key id k h : String) (c : DownloadCache)
    → get k c.in_flight ≡ some h
    → get k (try_reserve lib e key id c).1.in_flight ≡ some h
unfolding try_reserve take_key
try_reserve-keeps lib e key id k h c f = ground (
  arith,
  f,
  check_disk-in_flight lib e key c,
  get-put key k id (check_disk lib e key c).1.in_flight,
  eq_iff key k,
)

with_cache-Entered :
    (lib : JsonLibrary) (os_error : Bool) (id : String) (now : ℕ) (url media : String)
    (c : DownloadCache) (q : Manager)
    → let p : TaskPipeline = record { queue = q; cache = some c } in
      Entered
        (key_of lib url media)
        id
        (make_job id now url media)
        p
        (submit_download lib os_error id now url media p).1
unfolding submit_download reserve holder
with_cache-Entered lib os_error id now url media c q =
    let key = key_of lib url media in
    let p : TaskPipeline = record { queue = q; cache = some c } in
    then_enter-Entered key id (make_job id now url media) (try_reserve lib os_error key id c) p
      (try_reserve-IsHeld lib key os_error id c)
      (λ k h f. try_reserve-keeps lib os_error key id k h c f)

pub submit_download-Entered :
    (lib : JsonLibrary) (os_error : Bool) (id : String) (now : ℕ) (url media : String)
    (p : TaskPipeline)
    → HasCache p
    → Entered
        (key_of lib url media)
        id
        (make_job id now url media)
        p
        (submit_download lib os_error id now url media p).1
submit_download-Entered lib os_error id now url media p (c, e) =
    subst
      (λ o.
        let p' : TaskPipeline = record { queue = p.queue; cache = o } in
        Entered (key_of lib url media) id (make_job id now url media) p'
          (submit_download lib os_error id now url media p').1)
      (sym e) (with_cache-Entered lib os_error id now url media c p.queue)
