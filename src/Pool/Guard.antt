-- ===== src/Pool/Guard.antt =====
-- services/pipeline.py with the workers: the reservations that waiting and running downloads have.
use mix_saving_bot.Common.{
  ℕ, ◌+◌, ◌≤◌, String, ◌≡◌, refl, ap, ◌∙◌, ◌≢◌, inl, inr, false, none, some, List, [], ◌∷◌, arith,
  eq_iff, if◌then◌else◌, ◌==◌, Option-cases, string_eq, nat_eq,
}
use mix_saving_bot.Pool.Entry.{HasCache}
use mix_saving_bot.Pool.System.{dedupe_key_for_payload, System}
use mix_saving_bot.Common.All.{All}
use mix_saving_bot.Queue.Types.{Job, TaskResult}
use mix_saving_bot.Dedupe.Cache.{JsonLibrary}
use mix_saving_bot.Dedupe.Pipeline.{TaskPipeline}
use mix_saving_bot.Dedupe.Entry.{holder}
use mix_saving_bot.Queue.Counts.{occurs}

-- how many of the jobs have the key
unfoldable pub with_key : JsonLibrary → String → List Job → ℕ
with_key lib key [] = 0
with_key lib key (job ∷ jobs) =
    (if dedupe_key_for_payload lib job == key then 1 else 0) + with_key lib key jobs

-- a job of the pipeline that holds its key
pub record Holds (lib : JsonLibrary) (p : TaskPipeline) (job : Job) : Type 0 where
  pub held : holder (dedupe_key_for_payload lib job) p ≡ some job.id
  pub once_only : job.retry_on_failure ≡ false
  pub kind : job.kind ≡ "download"

abbrev pub OnceOnly : Job × TaskResult → Type 0
OnceOnly (job, res) = job.retry_on_failure ≡ false

pub record IsGuarded (lib : JsonLibrary) (s : System) : Type 0 where
  pub cached : HasCache s.pipeline
  pub waits : All (Holds lib s.pipeline) s.pipeline.queue.queue
  pub works : All (Holds lib s.pipeline) s.working
  pub once : (id : String) → occurs id s.pipeline.queue.queue + occurs id s.working ≤ 1
  pub plain : All OnceOnly s.answered

module _ (lib : JsonLibrary) (p p' : TaskPipeline) where
  -- jobs that are not the new one, when reservations of others stay
  pub All-framed :
      (id : String)
      → ((k h : String) → holder k p ≡ some h → h ≢ id → holder k p' ≡ some h)
      → (jobs : List Job) → occurs id jobs ≡ 0
      → All (Holds lib p) jobs
      → All (Holds lib p') jobs
  unfolding occurs
  All-framed id frame [] e h = tt
  All-framed id frame (job ∷ jobs) e h = (
    record {
      held =
          frame (dedupe_key_for_payload lib job) job.id h.0.held
            (λ same. absurd (ground (arith, e, eq_iff job.id id, same)));
      once_only = h.0.once_only;
      kind = h.0.kind;
    },
    All-framed id frame jobs (ground (arith, e)) h.1,
  )

  -- jobs that are not the one that ends, when the reservations of other keys stay
  pub All-released :
      (key id : String)
      → holder key p ≡ some id
      → ((k : String) → k ≢ key → holder k p' ≡ holder k p)
      → (jobs : List Job) → occurs id jobs ≡ 0
      → All (Holds lib p) jobs
      → All (Holds lib p') jobs
  unfolding occurs
  All-released key id own rest [] e h = tt
  All-released key id own rest (job ∷ jobs) e h = (
    record {
      held =
          rest (dedupe_key_for_payload lib job) (λ same.
            absurd (ground (arith, e, eq_iff job.id id, own, h.0.held, ap (λ k. holder k p) same)))
          ∙ h.0.held;
      once_only = h.0.once_only;
      kind = h.0.kind;
    },
    All-released key id own rest jobs (ground (arith, e)) h.1,
  )

module _ (lib : JsonLibrary) (p : TaskPipeline) (key : String) where
  with_key-le :
      (id : String)
      → holder key p ≡ some id
      → (jobs : List Job) → All (Holds lib p) jobs
      → with_key lib key jobs ≤ occurs id jobs
  unfolding with_key occurs
  with_key-le id own [] h = omega arith
  with_key-le id own (job ∷ jobs) h = ground (
    arith,
    with_key-le id own jobs h.1,
    h.0.held,
    own,
    eq_iff (dedupe_key_for_payload lib job) key,
    eq_iff job.id id,
  )

  pub with_key-none :
      holder key p ≡ none → (jobs : List Job) → All (Holds lib p) jobs → with_key lib key jobs ≡ 0
  unfolding with_key
  with_key-none free [] h = refl
  with_key-none free (job ∷ jobs) h = ground (
    arith,
    with_key-none free jobs h.1,
    h.0.held,
    free,
    eq_iff (dedupe_key_for_payload lib job) key,
  )

  pub with_key-held :
      (xs ys : List Job)
      → All (Holds lib p) xs
      → All (Holds lib p) ys
      → ((id : String) → occurs id xs + occurs id ys ≤ 1)
      → with_key lib key xs + with_key lib key ys ≤ 1
  with_key-held xs ys h k once = elim (Option-cases (holder key p)) [
    | inl free ↦ omega (arith, with_key-none free xs h, with_key-none free ys k)
    | inr (id, own) ↦ omega (arith, with_key-le id own xs h, with_key-le id own ys k, once id)
  ]
