-- ===== src/Dedupe/Entry.antt =====
-- services/pipeline.py: what becomes of the reservation that `submit_download` takes.
use mix_saving_bot.Common.{
  ℕ, String, ◌≡◌, refl, Bool, Option, none, some, arith, eq_iff, string_eq, nat_eq,
}
use mix_saving_bot.Queue.Types.{Job}
use mix_saving_bot.Common.Exec.{ok, Result}
use mix_saving_bot.Common.Dict.{get-remove, get}
use mix_saving_bot.Dedupe.Cache.{
  Reservation, abort, try_reserve, JsonLibrary, Exn as CacheExn, DownloadCache, reserved, duplicate,
}
use mix_saving_bot.Dedupe.Pipeline.{
  make_job, begin, key_of, abort_key, enter, give_back, submit_download, Submitted, Error, reserve,
  TaskPipeline,
}
use mix_saving_bot.Dedupe.Reservations.{try_reserve-IsHeld, IsHeld}
use mix_saving_bot.Queue.Manager.{
  begin_wait, Exn as QueueExn, Manager, queue_closed, queue_overflow, value_error,
}
use mix_saving_bot.Common.Exec.{Result, ok, raised, then_do}
use mix_saving_bot.Dedupe.Pipeline.{queue_error, on_cache, on_queue}

-- who holds the reservation of a key
unfoldable pub holder : String → TaskPipeline → Option String
holder key p = elim p.cache [ none ↦ none | some c ↦ get key c.in_flight ]

-- who should hold it, by the result of the call of job `id`
unfoldable pub holder_after : String → Result Error Submitted → Option String
holder_after id (raised (queue_error queue_overflow)) = none
holder_after id _ = some id

pub record HoldsIn (key id : String) (p : TaskPipeline) : Type 0 where
  pub cache_of : DownloadCache
  pub is_cache : p.cache ≡ some cache_of
  pub held : IsHeld key id cache_of

module _ (key id : String) where
  on_cache-HoldsIn :
      (r : Result CacheExn Reservation × DownloadCache) (p : TaskPipeline)
      → r.0 ≡ ok reserved
      → IsHeld key id r.1
      → ((on_cache r p).0 ≡ ok reserved) × HoldsIn key id (on_cache r p).1
  on_cache-HoldsIn (ok r, c) p h v = (cc, record { cache_of = c; is_cache = refl; held = v })
  on_cache-HoldsIn (raised x, c) p h v = cc

  pub holder-HoldsIn : (p : TaskPipeline) → HoldsIn key id p → holder key p ≡ some id
  unfolding holder
  holder-HoldsIn p v = ground (arith, v.is_cache, v.held.holder)

  abort_key-holder :
      (o : Option DownloadCache) (q : Manager)
      → holder key (record { queue = q; cache = abort_key key o }) ≡ none
  unfolding holder abort
  abort_key-holder none q = refl
  abort_key-holder (some c) q = ground (arith, get-remove key key c.in_flight, eq_iff key key)

  give_back-holder :
      (r : Result QueueExn ℕ × Manager) (p : TaskPipeline)
      → HoldsIn key id p
      → holder key (give_back key (on_queue r p)).1
        ≡ holder_after id (give_back key (on_queue r p)).0
  unfolding holder_after
  give_back-holder (ok fut, q) p v =
      holder-HoldsIn (record p { queue = q })
        (record { cache_of = v.cache_of; is_cache = v.is_cache; held = v.held })
  give_back-holder (raised queue_closed, q) p v =
      holder-HoldsIn (record p { queue = q })
        (record { cache_of = v.cache_of; is_cache = v.is_cache; held = v.held })
  give_back-holder (raised value_error, q) p v =
      holder-HoldsIn (record p { queue = q })
        (record { cache_of = v.cache_of; is_cache = v.is_cache; held = v.held })
  give_back-holder (raised queue_overflow, q) p v = abort_key-holder p.cache q

  -- a reservation that is granted, and the entry into the queue
  then_enter-holder :
      (job : Job) (r : Result Error Reservation × TaskPipeline)
      → r.0 ≡ ok reserved
      → HoldsIn key id r.1
      → holder key (then_do r (enter key job)).1 ≡ holder_after id (then_do r (enter key job)).0
  unfolding enter begin
  then_enter-holder job (ok reserved, p) h v = give_back-holder (begin_wait job p.queue) p v
  then_enter-holder job (ok duplicate, p) h v = cc
  then_enter-holder job (raised x, p) h v = cc

-- Where a download is granted the reservation of its key, the key is reserved for its job after the
-- call if the job waits in the queue, still reserved for it if a closed queue made the call raise, and
-- reserved for nobody if the queue was full.
pub submit_download-holder :
    (lib : JsonLibrary) (os_error : Bool) (id : String) (now : ℕ) (url media : String)
    (c : DownloadCache) (q : Manager)
    → (try_reserve lib os_error (key_of lib url media) id c).0 ≡ ok reserved
    → holder
        (key_of lib url media)
        (submit_download lib os_error id now url media (record { queue = q; cache = some c })).1
      ≡ holder_after id
          (submit_download lib os_error id now url media (record { queue = q; cache = some c })).0
unfolding submit_download reserve
submit_download-holder lib os_error id now url media c q h =
    let key = key_of lib url media in
    let p : TaskPipeline = record { queue = q; cache = some c } in
    let r = try_reserve lib os_error key id c in
    let (granted, v) = on_cache-HoldsIn key id r p h (try_reserve-IsHeld lib key os_error id c h) in
    then_enter-holder key id (make_job id now url media) (on_cache r p) granted v
