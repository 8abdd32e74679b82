-- ===== src/Pool/Starting.antt =====
-- services/worker.py: what `WorkerPool.start` adds to the tasks of the pool.
use mix_saving_bot.Common.{
  ℕ, zero, suc, ◌+◌, ◌≡◌, refl, sym, ap, ◌⊎◌, inl, inr, Bool, true, false, ◌||◌, none, some, List,
  [], ◌∷◌, ◌++◌, arith, ◌==◌, length, get_elem?, length-append, string_eq, nat_eq,
}
use mix_saving_bot.Pool.Lifecycle.{Task, start_workers, start_pool, running, WorkerPool}

unfoldable pub listed : ℕ → List ℕ → Bool
listed i [] = false
listed i (j ∷ js) = i == j || listed i js

-- the pool knows each task that runs
pub record IsKnown (p : WorkerPool) : Type 0 where
  pub known :
      (i : ℕ)
      → get_elem? p.loop i ≡ some running
      → (listed i p.tasks ≡ true) ⊎ (p.recovery_task ≡ some i)

get_elem?-end :
    (ts : List Task) (t : Task) (i : ℕ)
    → get_elem? (ts ++ t ∷ []) i ≡ some running
    → (get_elem? ts i ≡ some running) ⊎ (i ≡ length ts)
get_elem?-end [] t zero h = inr refl
get_elem?-end [] t (suc i) h = cc
get_elem?-end (u ∷ ts) t zero h = inl h
get_elem?-end (u ∷ ts) t (suc i) h = elim (get_elem?-end ts t i h) [
  | inl old ↦ inl old
  | inr e ↦ inr (omega (arith, e))
]

listed-end : (i j : ℕ) (is : List ℕ) → listed i (is ++ j ∷ []) ≡ (listed i is || i == j)
unfolding listed
listed-end i j [] = ground arith
listed-end i j (k ∷ is) = ground (arith, listed-end i j is)

-- the workers that are started are known, and nothing else changes
start_workers-IsKnown :
    (n : ℕ) (p : WorkerPool)
    → IsKnown p
    → IsKnown (start_workers n p)
      × ((start_workers n p).recovery_task ≡ p.recovery_task)
      × (length (start_workers n p).tasks ≡ length p.tasks + n)
unfolding start_workers
start_workers-IsKnown zero p v = (v, refl, omega arith)
start_workers-IsKnown (suc n) p v =
    let p' : WorkerPool = record p {
      tasks = p.tasks ++ length p.loop ∷ [];
      loop = p.loop ++ running ∷ [];
    } in
    let (known, same, many) = start_workers-IsKnown n p' (record {
      known = λ i h. elim (get_elem?-end p.loop running i h) [
        | inl old ↦ ground (arith, v.known i old, listed-end i (length p.loop) p.tasks)
        | inr e ↦ inl (ground (arith, e, listed-end i (length p.loop) p.tasks))
      ];
    }) in
    (known, same, omega (arith, many, length-append p.tasks (length p.loop ∷ [])))

-- A pool that knows each of its running tasks and has no recovery loop yet starts as many workers
-- as it has been made for.
pub start_pool-IsKnown :
    (p : WorkerPool)
    → IsKnown p
    → p.recovery_task ≡ none
    → IsKnown (start_pool p) × (length (start_pool p).tasks ≡ length p.tasks + p.workers)
unfolding start_pool
start_pool-IsKnown p v free =
    let p' = start_workers p.workers (record p { stopped = false }) in
    let (known, same, many) =
      start_workers-IsKnown p.workers (record p { stopped = false }) (record { known = v.known }) in
    (
      record {
        known = λ i h. elim (get_elem?-end p'.loop running i h) [
          | inl old ↦ elim (known.known i old) [
            | inl there ↦ inl there
            | inr e ↦ absurd (ground (arith, e, same, free))
          ]
          | inr e ↦ inr (ap some (sym e))
        ];
      },
      many,
    )
