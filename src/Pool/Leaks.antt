-- ===== src/Pool/Leaks.antt =====
-- services/pipeline.py with the workers of the pool: reservations and their jobs.
use mix_saving_bot.Pool.Entry.{submit_download-Entered, HasCache}
use mix_saving_bot.Pool.Origin.{submit_download-Origin}
use mix_saving_bot.Queue.Worker.{Answer, finish}
use mix_saving_bot.Common.{
  ℕ, ◌+◌, ◌≤◌, String, ◌≡◌, ap, ◌∙◌, inl, inr, Bool, true, false, not, Option, none, some, List, [],
  ◌∷◌, ◌++◌, arith, eq_iff, string_eq, nat_eq,
}
use mix_saving_bot.Common.Dict.{put, get}
use mix_saving_bot.Queue.Types.{Job, TaskResult}
use mix_saving_bot.Queue.Manager.{task_done, acknowledge, Manager}
use mix_saving_bot.Dedupe.Cache.{JsonLibrary}
use mix_saving_bot.Dedupe.Pipeline.{TaskPipeline, key_of, make_job}
use mix_saving_bot.Dedupe.Entry.{holder}
use mix_saving_bot.Dedupe.Processor.{settle_job-holder, crashed}
use mix_saving_bot.Pool.System.{
  settled, joined, Step, dedupe_key_for_payload, System, submit, submits, leaves, asks, closes,
  takes, settles, answers, text_of,
}
use mix_saving_bot.Pool.Guard.{IsGuarded, with_key}

-- the queue is not closed, and the processor does not raise
abbrev pub is_calm : {lib : JsonLibrary} {s t : System} → Step lib s t → Bool
is_calm (submits s e id now url media fresh) = true
is_calm (leaves s job) = true
is_calm (asks s e key) = true
is_calm (closes s) = false
is_calm (takes s now idle) = true
is_calm (settles s torn a before job after e) = not (crashed a)
is_calm (answers s before job res after e) = true

pub data CalmRuns (lib : JsonLibrary) (s : System) : System → Type 0 where
  here : CalmRuns lib s s
  next :
      {t u : System} → CalmRuns lib s t → (st : Step lib t u) → is_calm st ≡ true → CalmRuns lib s u

pub record IsTidy (lib : JsonLibrary) (s : System) : Type 0 where
  pub guarded : IsGuarded lib s
  pub opened : s.pipeline.queue.closed ≡ false
  pub owned :
      (k h : String)
      → holder k s.pipeline ≡ some h
      → 1 ≤ with_key lib k s.pipeline.queue.queue + with_key lib k s.working

pub with_key-append :
    (lib : JsonLibrary) (k : String) (xs ys : List Job)
    → with_key lib k (xs ++ ys) ≡ with_key lib k xs + with_key lib k ys
unfolding with_key
with_key-append lib k [] ys = omega arith
with_key-append lib k (x ∷ xs) ys = omega (arith, with_key-append lib k xs ys)

-- neither an acknowledgement nor the end of a round opens or closes the queue
acknowledge-closed : (job : Job) (m : Manager) → (acknowledge job m).1.closed ≡ m.closed
unfolding acknowledge task_done
acknowledge-closed job m = ground arith

pub finish-closed :
    (job : Job) (res : TaskResult) (m : Manager)
    → job.retry_on_failure ≡ false
    → (finish job res m).1.closed ≡ m.closed
unfolding finish
finish-closed job res m e = ground (arith, e, acknowledge-closed job m)

module _ (lib : JsonLibrary) where
  pub submit-owned :
      (s : System) (e : Bool) (id : String) (now : ℕ) (url media : String)
      → IsTidy lib s
      → let t = submit lib e id now url media s in
        (t.pipeline.queue.closed ≡ false)
        × ((k h : String)
            → holder k t.pipeline ≡ some h
            → 1 ≤ with_key lib k t.pipeline.queue.queue + with_key lib k t.working)
  unfolding submit with_key dedupe_key_for_payload text_of get
  submit-owned s e id now url media v =
      let job = make_job id now url media in
      let q = s.pipeline.queue.queue in
      let (origin, shut) =
        submit_download-Origin lib e id now url media s.pipeline v.guarded.cached v.opened in
      let entered = submit_download-Entered lib e id now url media s.pipeline v.guarded.cached in
      (
        shut ∙ v.opened,
        λ k h f. elim (origin k h f) [
          | inl old ↦ elim entered.queued [
            | inl stays ↦ omega (arith, v.owned k h old, ap (with_key lib k) stays)
            | inr (grows, own) ↦ omega (
              arith,
              v.owned k h old,
              ap (with_key lib k) grows,
              with_key-append lib k q (job ∷ []),
            )
          ]
          | inr (same, grows) ↦ ground (
            arith,
            ap (with_key lib k) grows,
            with_key-append lib k q (job ∷ []),
            same,
            eq_iff (key_of lib url media) k,
          )
        ],
      )

  pub taken-owned :
      (now : ℕ) (s : System) (q : List Job)
      → s.pipeline.queue.queue ≡ q
      → IsTidy lib s
      → let m = s.pipeline.queue in
        let got : Option Job × Manager = elim q [
          | [] ↦ (none, m)
          | job ∷ rest ↦
              (some job, record m { queue = rest; in_flight = put job.id (job, now) m.in_flight })
        ] in
        (got.1.closed ≡ false)
        × ((k h : String)
            → holder k s.pipeline ≡ some h
            → 1 ≤ with_key lib k got.1.queue + with_key lib k (joined got.0 s.working))
  unfolding with_key
  taken-owned now s [] e v = (v.opened, v.owned)
  taken-owned now s (job ∷ rest) e v =
      (v.opened, λ k h f. omega (arith, v.owned k h f, ap (with_key lib k) e))

  -- the processor has given the reservation back
  pub settled-free :
      (torn : Option (List String)) (job : Job) (a : Answer) (p : TaskPipeline)
      → crashed a ≡ false
      → HasCache p
      → holder
          (dedupe_key_for_payload lib job)
          (record p { cache = settled lib torn job a p.cache })
        ≡ none
  unfolding holder
  settled-free torn job a p fine (c, is) =
      let key = dedupe_key_for_payload lib job in
      ground (arith, is, fine, (settle_job-holder lib torn key a c).0)
