-- ===== src/Queue/Counts.antt =====
-- services/queue_manager.py: how often an id stands in the queue and in `_in_flight`.
use mix_saving_bot.Common.{
  ℕ, suc, ◌+◌, ◌≤◌, String, ◌≡◌, refl, some, List, [], ◌∷◌, ◌++◌, arith, eq_iff, if◌then◌else◌,
  ◌==◌, length, string_eq, nat_eq,
}
use mix_saving_bot.Common.Dict.{Dict, get, put, remove}
use mix_saving_bot.Queue.Types.{Job}

-- how many jobs, and how many entries, have an id
unfoldable pub occurs : String → List Job → ℕ
occurs id [] = 0
occurs id (job ∷ jobs) = (if job.id == id then 1 else 0) + occurs id jobs

module _ {V : Type 0} where
  unfoldable pub entries : String → Dict String V → ℕ
  entries id [] = 0
  entries id ((k, v) ∷ d) = (if k == id then 1 else 0) + entries id d

  pub length-remove :
      (id : String) (d : Dict String V) → length (remove id d) + entries id d ≡ length d
  unfolding entries remove
  length-remove id [] = refl
  length-remove id ((k, v) ∷ d) = ground (arith, length-remove id d)

  pub entries-remove :
      (id j : String) (d : Dict String V)
      → entries j (remove id d) ≡ (if id == j then 0 else entries j d)
  unfolding entries remove
  entries-remove id j [] = ground arith
  entries-remove id j ((k, v) ∷ d) =
      ground (arith, eq_iff id j, eq_iff k id, eq_iff k j, entries-remove id j d)

  pub length-put :
      (id : String) (v : V) (d : Dict String V)
      → entries id d ≡ 0
      → length (put id v d) ≡ suc (length d)
  unfolding entries put
  length-put id v [] e = refl
  length-put id v ((k, w) ∷ d) e = ground (arith, e, length-put id v d)

  pub entries-put :
      (id j : String) (v : V) (d : Dict String V)
      → entries id d ≡ 0
      → entries j (put id v d) ≡ (if id == j then 1 else 0) + entries j d
  unfolding entries put
  entries-put id j v [] e = refl
  entries-put id j v ((k, w) ∷ d) e = ground (arith, e, eq_iff k id, entries-put id j v d)

  pub entries-get : (id : String) (v : V) (d : Dict String V) → get id d ≡ some v → 1 ≤ entries id d
  unfolding entries get
  entries-get id v [] e = cc
  entries-get id v ((k, w) ∷ d) e = ground (arith, e, entries-get id v d)

pub occurs-append :
    (id : String) (xs ys : List Job) → occurs id (xs ++ ys) ≡ occurs id xs + occurs id ys
unfolding occurs
occurs-append id [] ys = omega arith
occurs-append id (x ∷ xs) ys = omega (arith, occurs-append id xs ys)
