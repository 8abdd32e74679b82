-- ===== src/Jobs/Futures.antt =====
-- The invariant of the waiter (services/jobs/terminal_waiter.py) under any sequence of operations.
use mix_saving_bot.Common.{
  ℕ, ◌≤◌, ◌<◌, String, ◌≡◌, refl, ◌≢◌, ◌⊎◌, inl, inr, Option, none, some, List, [], ◌∷◌, ◌++◌,
  arith, eq_iff, Bool-cases, Option-cases, length, get_elem?, get_elem?-append_end,
  get_elem?-append, get_elem?-set, get_elem?-lt, string_eq, nat_eq,
}
use mix_saving_bot.Common.Dict.{Dict, get, put, get-put, get-remove, length-put-le}
use mix_saving_bot.Contracts.{JobRecord, is_terminal}
use mix_saving_bot.Jobs.Waiter.{
  Future, pending, done, cancelled, Waiter, init, trim, subscribe_open, subscribe, resolve,
  publish_terminal, cancel,
}

length-trim-le : (m : ℕ) (d : Dict String JobRecord) → length (trim m d) ≤ m
unfolding trim
length-trim-le m [] = omega arith
length-trim-le m (e ∷ rest) = ground (arith, length-trim-le m rest)

trim-id : (m : ℕ) (d : Dict String JobRecord) → length d ≤ m → trim m d ≡ d
unfolding trim
trim-id m [] h = refl
trim-id m (e ∷ rest) h = ground arith

pub get-trim :
    (m : ℕ) (k : String) (v : JobRecord) (d : Dict String JobRecord)
    → 0 < m
    → length d ≤ m
    → get k (trim m (put k v d)) ≡ some v
unfolding trim put get
get-trim m k v [] h l = ground (arith, eq_iff k k)
get-trim m k v ((j, w) ∷ rest) h l = ground (
  arith,
  trim-id m (put k v rest),
  get-put k k v rest,
  eq_iff j k,
  eq_iff k k,
  length-put-le k v rest,
)

-- The futures that wait are open, no two jobs share one, and the remembered records are bounded.
pub record Inv (w : Waiter) : Type 0 where
  pub waiting :
      (job : String) (f : ℕ)
      → get job w.futures ≡ some f
      → (get_elem? w.loop f ≡ some pending) ⊎ (get_elem? w.loop f ≡ some cancelled)
  pub distinct :
      (i j : String) (f : ℕ) → get i w.futures ≡ some f → get j w.futures ≡ some f → i ≡ j
  pub bounded : length w.terminal ≤ w.max_terminal

pub data Op : Type 0 where
  subscribes : String → Option JobRecord → Op
  publishes : JobRecord → Op
  cancels : ℕ → Op

unfoldable pub step : Waiter → Op → Waiter
step w (subscribes job snapshot) = (subscribe job snapshot w).1
step w (publishes rec) = publish_terminal rec w
step w (cancels f) = cancel f w

unfoldable pub run : Waiter → List Op → Waiter
unfolding step
run w [] = w
run w (o ∷ os) = run (step w o) os

init-Inv : (m : ℕ) → Inv (init m)
unfolding get
init-Inv m = record { waiting = λ job f e. cc; distinct = λ i j f e. cc; bounded = omega arith }

cancel-Inv : (f : ℕ) (w : Waiter) → Inv w → Inv (cancel f w)
unfolding cancel
cancel-Inv f w v = record {
  waiting = λ job g e. ground (arith, v.waiting job g, get_elem?-set w.loop f g cancelled pending);
  distinct = λ i j g e h. ground (arith, v.distinct i j g);
  bounded = ground (arith, v.bounded);
}

-- `set_result` changes the one future that it is called on.
pub resolve_other :
    (o : Option ℕ) (snap : JobRecord) (loop : List Future) (g : ℕ)
    → o ≢ some g
    → get_elem? (resolve o snap loop) g ≡ get_elem? loop g
resolve_other none snap loop g h = refl
resolve_other (some f) snap loop g h = ground (arith, get_elem?-set loop f g (done snap) pending)

pub resolve_hit :
    (snap : JobRecord) (loop : List Future) (g : ℕ)
    → get_elem? loop g ≡ some pending
    → get_elem? (resolve (some g) snap loop) g ≡ some (done snap)
resolve_hit snap loop g h = ground (arith, get_elem?-set loop g g (done snap) pending)

-- and a future that is done stays as it is
pub resolve_done :
    (o : Option ℕ) (snap rec : JobRecord) (loop : List Future) (g : ℕ)
    → get_elem? loop g ≡ some (done rec)
    → get_elem? (resolve o snap loop) g ≡ some (done rec)
resolve_done none snap rec loop g h = h
resolve_done (some f) snap rec loop g h = ground (arith, get_elem?-set loop f g (done snap) pending)

publish-Inv : (rec : JobRecord) (w : Waiter) → Inv w → Inv (publish_terminal rec w)
unfolding publish_terminal
publish-Inv rec w v = record {
  waiting = λ job g e. elim (Bool-cases (is_terminal rec.status)) [
    | inl yes' ↦ ground (
      arith,
      v.waiting job g,
      get-remove rec.job_id job w.futures,
      v.distinct rec.job_id job g,
      eq_iff rec.job_id job,
      resolve_other (get rec.job_id w.futures) rec w.loop g,
    )
    | inr no' ↦ ground (arith, v.waiting job g)
  ];
  distinct = λ i j g e h. ground (
    arith,
    v.distinct i j g,
    get-remove rec.job_id i w.futures,
    get-remove rec.job_id j w.futures,
  );
  bounded =
      ground (arith, v.bounded, length-trim-le w.max_terminal (put rec.job_id rec w.terminal));
}

pub create-Inv : (f : Future) (w : Waiter) → Inv w → Inv (record w { loop = w.loop ++ f ∷ [] })
create-Inv f w v = record {
  waiting = λ job g e. ground (
    arith,
    v.waiting job g,
    get_elem?-append w.loop (f ∷ []) g {v = pending},
    get_elem?-append w.loop (f ∷ []) g {v = cancelled},
  );
  distinct = v.distinct;
  bounded = v.bounded;
}

pub register-Inv :
    (job : String) (w : Waiter)
    → Inv w
    → get job w.futures ≡ none
    → Inv (record w { loop = w.loop ++ pending ∷ []; futures = put job (length w.loop) w.futures })
register-Inv job w v absent = record {
  waiting = λ k g e. ground (
    arith,
    v.waiting k g,
    get-put job k (length w.loop) w.futures,
    get_elem?-append_end w.loop pending,
    get_elem?-append w.loop (pending ∷ []) g {v = pending},
    get_elem?-append w.loop (pending ∷ []) g {v = cancelled},
  );
  distinct = λ i j g e h. ground (
    arith,
    eq_iff job i,
    eq_iff job j,
    v.distinct i j g,
    get-put job i (length w.loop) w.futures,
    get-put job j (length w.loop) w.futures,
    v.waiting i g,
    v.waiting j g,
    get_elem?-lt w.loop g pending,
    get_elem?-lt w.loop g cancelled,
  );
  bounded = v.bounded;
}

pub subscribe_open_cases {ℓ} :
    (P : Waiter → Type ℓ) (job : String) (w : Waiter)
    → P w
    → ((f : Future) → P (record w { loop = w.loop ++ f ∷ [] }))
    → (get job w.futures ≡ none
        → P (record w {
          loop = w.loop ++ pending ∷ [];
          futures = put job (length w.loop) w.futures;
        }))
    → P (subscribe_open job w).1
unfolding subscribe_open
subscribe_open_cases P job w same more new = elim (Option-cases (get job w.terminal)) [
  | inr (r, e) ↦ rw (e, subscribe_open) (more (done r))
  | inl none_cached ↦ elim (Option-cases (get job w.futures)) [
    | inl absent ↦ rw (none_cached, absent, subscribe_open) (new absent)
    | inr (f, e) ↦ rw (none_cached, e, subscribe_open) same
  ]
]

-- The three ways in which `subscribe` changes the state.
pub subscribe_cases {ℓ} :
    (P : Waiter → Type ℓ) (job : String) (snapshot : Option JobRecord) (w : Waiter)
    → P w
    → ((f : Future) → P (record w { loop = w.loop ++ f ∷ [] }))
    → (get job w.futures ≡ none
        → P (record w {
          loop = w.loop ++ pending ∷ [];
          futures = put job (length w.loop) w.futures;
        }))
    → P (subscribe job snapshot w).1
unfolding subscribe
subscribe_cases P job none w same more new = subscribe_open_cases P job w same more new
subscribe_cases P job (some snap) w same more new = elim (Bool-cases (is_terminal snap.status)) [
  | inl ended ↦ rw (ended, subscribe) (more (done snap))
  | inr open' ↦ rw (open', subscribe) (subscribe_open_cases P job w same more new)
]

subscribe-Inv :
    (job : String) (snapshot : Option JobRecord) (w : Waiter)
    → Inv w
    → Inv (subscribe job snapshot w).1
subscribe-Inv job snapshot w v =
    subscribe_cases Inv job snapshot w v (λ f. create-Inv f w v) (register-Inv job w v)

-- Every operation keeps the invariant.
pub step-Inv : (w : Waiter) (o : Op) → Inv w → Inv (step w o)
unfolding step
step-Inv w (subscribes job snapshot) v = subscribe-Inv job snapshot w v
step-Inv w (publishes rec) v = publish-Inv rec w v
step-Inv w (cancels f) v = cancel-Inv f w v

pub run-Inv : (w : Waiter) (os : List Op) → Inv w → Inv (run w os)
unfolding run
run-Inv w [] v = v
run-Inv w (o ∷ os) v = run-Inv (step w o) os (step-Inv w o v)

-- From the start, whatever is subscribed, published and cancelled, each registered future is open,
-- no two jobs share a future, and at most `max_terminal` records are remembered.
pub run-init-Inv : (m : ℕ) (os : List Op) → Inv (run (init m) os)
run-init-Inv m os = run-Inv (init m) os (init-Inv m)
