-- ===== src/Pool/Steps.antt =====
-- services/pipeline.py with the workers of the pool: a caller that submits and a worker that takes a job
use mix_saving_bot.Common.{
  ℕ, ◌+◌, String, ◌≡◌, refl, sym, ap, ◌∙◌, inl, inr, Bool, Option, none, some, List, [], ◌∷◌, arith,
  eq_iff, string_eq, nat_eq,
}
use mix_saving_bot.Common.All.{All-append, All-weaken, All}
use mix_saving_bot.Pool.Entry.{submit_download-Entered, HasCache}
use mix_saving_bot.Pool.System.{submit, text_of, dedupe_key_for_payload, joined, System, take_job}
use mathlib.Core.Path.{subst}
use mix_saving_bot.Common.Dict.{get, put}
use mix_saving_bot.Queue.Types.{Job}
use mix_saving_bot.Queue.Counts.{occurs, occurs-append}
use mix_saving_bot.Queue.Manager.{dequeue, Manager}
use mix_saving_bot.Dedupe.Cache.{JsonLibrary}
use mix_saving_bot.Dedupe.Pipeline.{submit_download, TaskPipeline, make_job}
use mix_saving_bot.Dedupe.Entry.{holder}
use mix_saving_bot.Pool.Guard.{OnceOnly, All-framed, IsGuarded, Holds}

module _ (lib : JsonLibrary) where
  -- a system with the same jobs and reservations
  module _ (s t : System) (same : (k : String) → holder k t.pipeline ≡ holder k s.pipeline) where
    Holds-same : (job : Job) → Holds lib s.pipeline job → Holds lib t.pipeline job
    Holds-same job h = record {
      held = same (dedupe_key_for_payload lib job) ∙ h.held;
      once_only = h.once_only;
      kind = h.kind;
    }

    pub IsGuarded-same :
        HasCache t.pipeline
        → t.pipeline.queue.queue ≡ s.pipeline.queue.queue
        → t.working ≡ s.working
        → t.answered ≡ s.answered
        → IsGuarded lib s
        → IsGuarded lib t
    IsGuarded-same cache q w a v = record {
      cached = cache;
      waits =
          All-weaken (Holds lib s.pipeline) (Holds lib t.pipeline) Holds-same t.pipeline.queue.queue
            (subst (All (Holds lib s.pipeline)) (sym q) v.waits);
      works =
          All-weaken (Holds lib s.pipeline) (Holds lib t.pipeline) Holds-same t.working
            (subst (All (Holds lib s.pipeline)) (sym w) v.works);
      once = λ id. omega (arith, v.once id, ap (λ l. occurs id l) q, ap (λ l. occurs id l) w);
      plain = subst (All OnceOnly) (sym a) v.plain;
    }

  pub submit-IsGuarded :
      (s : System) (os_error : Bool) (id : String) (now : ℕ) (url media : String)
      → occurs id s.pipeline.queue.queue + occurs id s.working ≡ 0
      → IsGuarded lib s
      → IsGuarded lib (submit lib os_error id now url media s)
  unfolding submit occurs dedupe_key_for_payload text_of get
  submit-IsGuarded s os_error id now url media fresh v =
      let e = submit_download-Entered lib os_error id now url media s.pipeline v.cached in
      let p' = (submit_download lib os_error id now url media s.pipeline).1 in
      let q = s.pipeline.queue.queue in
      let waits : All (Holds lib p') q =
        All-framed lib s.pipeline p' id e.frame q (omega (arith, fresh)) v.waits in
      let works : All (Holds lib p') s.working =
        All-framed lib s.pipeline p' id e.frame s.working (omega (arith, fresh)) v.works in
      elim e.queued [
        | inl stays ↦ record {
          cached = e.cached;
          waits = subst (All (Holds lib p')) (sym stays) waits;
          works = works;
          once = λ j. omega (arith, v.once j, ap (λ l. occurs j l) stays);
          plain = v.plain;
        }
        | inr (grows, own) ↦
            let job = make_job id now url media in
            record {
              cached = e.cached;
              waits = subst (All (Holds lib p')) (sym grows) (
                  All-append (Holds lib p') q (job ∷ []) waits
                    (record { held = own; once_only = refl; kind = refl }, tt));
              works = works;
              once = λ j. ground (
                arith,
                v.once j,
                ap (λ l. occurs j l) grows,
                occurs-append j q (job ∷ []),
                fresh,
                eq_iff id j,
              );
              plain = v.plain;
            }
      ]

  -- the first job of the queue goes to a worker
  taken-IsGuarded :
      (now : ℕ) (s : System) (q : List Job)
      → s.pipeline.queue.queue ≡ q
      → IsGuarded lib s
      → let m = s.pipeline.queue in
        let got : Option Job × Manager = elim q [
          | [] ↦ (none, m)
          | job ∷ rest ↦
              (some job, record m { queue = rest; in_flight = put job.id (job, now) m.in_flight })
        ] in
        IsGuarded lib (record s {
          pipeline = record s.pipeline { queue = got.1 };
          working = joined got.0 s.working;
        })
  unfolding holder occurs
  taken-IsGuarded now s [] e v = v
  taken-IsGuarded now s (job ∷ rest) e v =
      let all : All (Holds lib s.pipeline) (job ∷ rest) =
        subst (All (Holds lib s.pipeline)) e v.waits in
      let p' : TaskPipeline = record s.pipeline {
        queue = record s.pipeline.queue {
          queue = rest;
          in_flight = put job.id (job, now) s.pipeline.queue.in_flight;
        };
      } in
      let weak : (j : Job) → Holds lib s.pipeline j → Holds lib p' j =
        λ j h. record { held = h.held; once_only = h.once_only; kind = h.kind } in
      record {
        cached = v.cached;
        waits = All-weaken (Holds lib s.pipeline) (Holds lib p') weak rest all.1;
        works =
            All-weaken (Holds lib s.pipeline) (Holds lib p') weak (job ∷ s.working)
              (all.0, v.works);
        once = λ id. omega (arith, v.once id, ap (λ l. occurs id l) e);
        plain = v.plain;
      }

  pub take_job-IsGuarded : (now : ℕ) (s : System) → IsGuarded lib s → IsGuarded lib (take_job now s)
  unfolding take_job dequeue
  take_job-IsGuarded now s v = taken-IsGuarded now s s.pipeline.queue.queue refl v
