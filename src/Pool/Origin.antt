-- ===== src/Pool/Origin.antt =====
-- services/pipeline.py: where the reservations come from that are there after a call of
-- `submit_download` on an open queue.
use mix_saving_bot.Common.{
  ℕ, String, ◌≡◌, refl, sym, ap, ◌∙◌, ◌≢◌, ◌⊎◌, inl, inr, Bool, false, Option, none, some, [], ◌∷◌,
  ◌++◌, arith, eq_iff, ◌==◌, Bool-cases, string_eq, nat_eq,
}
use mathlib.Core.Path.{subst}
use mix_saving_bot.Dedupe.Exclusion.{check_disk-in_flight}
use mix_saving_bot.Dedupe.Pipeline.{
  make_job, reserve, key_of, submit_download, on_cache, on_queue, give_back, begin, abort_key,
  enter, TaskPipeline,
}
use mix_saving_bot.Dedupe.Entry.{holder}
use mix_saving_bot.Queue.Types.{Job}
use mix_saving_bot.Common.Dict.{get, get-put, get-remove}
use mix_saving_bot.Common.Exec.{ok, raised, Result, then_do}
use mix_saving_bot.Queue.Manager.{
  begin_wait, Exn as QueueExn, Manager, queue_closed, queue_overflow, value_error, enqueue,
  put_nowait,
}
use mix_saving_bot.Dedupe.Cache.{
  check_disk, Reservation, DownloadCache, JsonLibrary, abort, take_key, try_reserve,
  Exn as CacheExn, reserved, duplicate,
}
use mix_saving_bot.Pool.Entry.{begin_wait-Queued, HasCache, Queued}

-- a reservation was there before, or it is that of the new job, which is in the queue
abbrev pub Origin : String → Job → TaskPipeline → TaskPipeline → Type 0
Origin key job p p' =
    (k h : String)
    → holder k p' ≡ some h
    → (holder k p ≡ some h) ⊎ ((k ≡ key) × (p'.queue.queue ≡ p.queue.queue ++ job ∷ []))

-- an open queue refuses a job only if it is full
begin_wait-open :
    (job : Job) (q : Manager) (x : QueueExn)
    → q.closed ≡ false
    → (begin_wait job q).0 ≡ raised x
    → x ≡ queue_overflow
unfolding begin_wait enqueue put_nowait
begin_wait-open job q x e h = ground (arith, e, h)

begin_wait-closed : (job : Job) (q : Manager) → (begin_wait job q).1.closed ≡ q.closed
unfolding begin_wait enqueue put_nowait
begin_wait-closed job q = ground arith

abort_key-origin :
    (key : String) (o : Option DownloadCache) (q q' : Manager) (k h : String)
    → holder k (record { queue = q'; cache = abort_key key o }) ≡ some h
    → (holder k (record { queue = q; cache = o }) ≡ some h) × (k ≢ key)
unfolding holder abort
abort_key-origin key none q q' k h e = cc
abort_key-origin key (some c) q q' k h e = (
  ground (arith, e, get-remove key k c.in_flight, eq_iff key k),
  λ same. ground (arith, e, get-remove key k c.in_flight, eq_iff key k, same),
)

module _ (key : String) (job : Job) (p : TaskPipeline) where
  give_back-Origin :
      (r : Result QueueExn ℕ × Manager) (o : Option DownloadCache)
      → ((k h : String)
          → holder k (record p { cache = o }) ≡ some h
          → (holder k p ≡ some h) ⊎ (k ≡ key))
      → ((x : QueueExn) → r.0 ≡ raised x → x ≡ queue_overflow)
      → Queued job p.queue r
      → Origin key job p (give_back key (on_queue r (record p { cache = o }))).1
  unfolding holder
  give_back-Origin (ok fut, q) o from full e k h f = elim (from k h f) [
    | inl old ↦ inl old
    | inr new ↦ inr (new, e)
  ]
  give_back-Origin (raised queue_closed, q) o from full e k h f =
      absurd (ground (arith, full queue_closed refl))
  give_back-Origin (raised value_error, q) o from full e k h f =
      absurd (ground (arith, full value_error refl))
  give_back-Origin (raised queue_overflow, q) o from full e k h f =
      let (held, ne) = abort_key-origin key o p.queue q k h f in
      elim (from k h held) [ inl old ↦ inl old | inr new ↦ absurd (ne new) ]

  then_enter-Origin :
      (r : Result CacheExn Reservation × DownloadCache)
      → ((k h : String)
          → get k r.1.in_flight ≡ some h
          → (holder k p ≡ some h) ⊎ ((k ≡ key) × (r.0 ≡ ok reserved)))
      → p.queue.closed ≡ false
      → Origin key job p (then_do (on_cache r p) (enter key job)).1
  unfolding enter begin holder
  then_enter-Origin (ok reserved, c) from e k h f =
      give_back-Origin (begin_wait job p.queue) (some c)
        (λ k h f. elim (from k h f) [ inl old ↦ inl old | inr (new, _) ↦ inr new ])
        (λ x. begin_wait-open job p.queue x e) (begin_wait-Queued job p.queue) k h f
  then_enter-Origin (ok duplicate, c) from e k h f = elim (from k h f) [
    | inl old ↦ inl old
    | inr (_, no_) ↦ cc
  ]
  then_enter-Origin (raised x, c) from e k h f = elim (from k h f) [
    | inl old ↦ inl old
    | inr (_, no_) ↦ cc
  ]

  give_back-closed :
      (r : Result QueueExn ℕ × Manager) (o : Option DownloadCache)
      → r.1.closed ≡ p.queue.closed
      → (give_back key (on_queue r (record p { cache = o }))).1.queue.closed ≡ p.queue.closed
  give_back-closed (ok fut, q) o e = e
  give_back-closed (raised queue_closed, q) o e = e
  give_back-closed (raised value_error, q) o e = e
  give_back-closed (raised queue_overflow, q) o e = e

  then_enter-closed :
      (r : Result CacheExn Reservation × DownloadCache)
      → (then_do (on_cache r p) (enter key job)).1.queue.closed ≡ p.queue.closed
  unfolding enter begin
  then_enter-closed (ok reserved, c) =
      give_back-closed (begin_wait job p.queue) (some c) (begin_wait-closed job p.queue)
  then_enter-closed (ok duplicate, c) = refl
  then_enter-closed (raised x, c) = refl

-- a call of the cache adds at most the reservation that it grants
granted :
    (key k h : String) (c : DownloadCache) (r : Result CacheExn Reservation × DownloadCache)
    → (r.0 ≡ ok duplicate → r.1.in_flight ≡ c.in_flight)
    → ((x : CacheExn) → r.0 ≡ raised x → r.1.in_flight ≡ c.in_flight)
    → (k ≢ key → get k r.1.in_flight ≡ get k c.in_flight)
    → get k r.1.in_flight ≡ some h
    → (get k c.in_flight ≡ some h) ⊎ ((k ≡ key) × (r.0 ≡ ok reserved))
granted key k h c (ok duplicate, c') d x n f = inl (ap (get k) (sym (d refl)) ∙ f)
granted key k h c (raised e, c') d x n f = inl (ap (get k) (sym (x e refl)) ∙ f)
granted key k h c (ok reserved, c') d x n f = elim (Bool-cases (k == key)) [
  | inl same ↦ inr ((eq_iff k key).0 same, refl)
  | inr other ↦ inl (sym (n (λ e. ground (arith, other, eq_iff k key, e))) ∙ f)
]

module _ (lib : JsonLibrary) (e : Bool) (key id : String) (c : DownloadCache) where
  pub try_reserve-origin :
      (k h : String)
      → get k (try_reserve lib e key id c).1.in_flight ≡ some h
      → (get k c.in_flight ≡ some h) ⊎ ((k ≡ key) × ((try_reserve lib e key id c).0 ≡ ok reserved))
  unfolding try_reserve take_key
  try_reserve-origin k h f =
      granted key k h c (try_reserve lib e key id c)
        (λ d. ground (arith, d, check_disk-in_flight lib e key c))
        (λ x d. ground (arith, d, check_disk-in_flight lib e key c))
        (λ ne. ground (
          arith,
          ne,
          check_disk-in_flight lib e key c,
          get-put key k id (check_disk lib e key c).1.in_flight,
          eq_iff key k,
        ))
        f

module _ (lib : JsonLibrary) (e : Bool) (id : String) (now : ℕ) (url media : String) where
  with_cache-Origin :
      (q : Manager) (c : DownloadCache)
      → let p : TaskPipeline = record { queue = q; cache = some c } in
        let p' = (submit_download lib e id now url media p).1 in
        q.closed ≡ false
        → Origin (key_of lib url media) (make_job id now url media) p p'
          × (p'.queue.closed ≡ q.closed)
  unfolding submit_download reserve holder
  with_cache-Origin q c open' =
      let key = key_of lib url media in
      let job = make_job id now url media in
      let p : TaskPipeline = record { queue = q; cache = some c } in
      let r = try_reserve lib e key id c in
      (
        then_enter-Origin key job p r (try_reserve-origin lib e key id c) open',
        then_enter-closed key job p r,
      )

  pub submit_download-Origin :
      (p : TaskPipeline)
      → HasCache p
      → p.queue.closed ≡ false
      → let p' = (submit_download lib e id now url media p).1 in
        Origin (key_of lib url media) (make_job id now url media) p p'
        × (p'.queue.closed ≡ p.queue.closed)
  submit_download-Origin p (c, is) open' =
      subst
        (λ o.
          let before : TaskPipeline = record { queue = p.queue; cache = o } in
          let p' = (submit_download lib e id now url media before).1 in
          Origin (key_of lib url media) (make_job id now url media) before p'
          × (p'.queue.closed ≡ p.queue.closed))
        (sym is) (with_cache-Origin p.queue c open')
