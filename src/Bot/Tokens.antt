-- ===== src/Bot/Tokens.antt =====
-- bot/pending_choice.py: what a pop of a token gives, and what it leaves.
use mix_saving_bot.Common.{
  ℕ, ◌+◌, ◌≤◌, String, ◌≡◌, refl, Bool, true, not, ◌&&◌, none, some, List, [], ◌∷◌, arith, eq_iff,
  leb, if◌then◌else◌, ◌==◌, string_eq, nat_eq,
}
use mix_saving_bot.Common.Dict.{Dict, get, get-put, get-remove}
use mix_saving_bot.Bot.PendingChoice.{check_row, PendingChoice, pop, purge, create, Store}
use mix_saving_bot.Contracts.{ℤ, int_eq}

pub data Op : Type 0 where
  creates : String → ℕ → PendingChoice → Op
  pops : String → ℕ → ℤ → Op

unfoldable pub step : Store → Op → Store
unfolding create pop
step s (creates token now choice) = create token now choice s
step s (pops token now user) = (pop token now user s).1

unfoldable pub run : Store → List Op → Store
unfolding step
run s [] = s
run s (o ∷ os) = run (step s o) os

-- the operation is on another token, and not after `deadline`
abbrev pub spares : String → ℕ → Op → Bool
spares token deadline (creates t now choice) = not (t == token) && leb now deadline
spares token deadline (pops t now user) = not (t == token) && leb now deadline

unfoldable pub all_spare : String → ℕ → List Op → Bool
all_spare token deadline [] = true
all_spare token deadline (o ∷ os) = spares token deadline o && all_spare token deadline os

-- the operation does not create the token
abbrev pub no_create : String → Op → Bool
no_create token (creates t now choice) = not (t == token)
no_create token (pops t now user) = true

unfoldable pub none_create : String → List Op → Bool
none_create token [] = true
none_create token (o ∷ os) = no_create token o && none_create token os

module _ (token : String) where
  get-purge :
      (now e : ℕ) (choice : PendingChoice) (d : Dict String (ℕ × PendingChoice))
      → now ≤ e
      → get token d ≡ some (e, choice)
      → get token (purge now d) ≡ some (e, choice)
  unfolding get purge
  get-purge now e choice [] l h = cc
  get-purge now e choice ((t, (f, other)) ∷ d) l h =
      ground (arith, l, h, get-purge now e choice d l)

  get-purge-none :
      (now : ℕ) (d : Dict String (ℕ × PendingChoice))
      → get token d ≡ none
      → get token (purge now d) ≡ none
  unfolding get purge
  get-purge-none now [] h = refl
  get-purge-none now ((t, (f, other)) ∷ d) h = ground (arith, h, get-purge-none now d)

  step-kept :
      (e : ℕ) (choice : PendingChoice) (s : Store) (o : Op)
      → spares token e o ≡ true
      → get token s.entries ≡ some (e, choice)
      → get token (step s o).entries ≡ some (e, choice)
  unfolding step create pop
  step-kept e choice s (creates t now other) l h = ground (
    arith,
    l,
    get-purge now e choice s.entries _ h,
    get-put t token (now + s.ttl, other) (purge now s.entries),
  )
  step-kept e choice s (pops t now user) l h =
      ground
        (arith, l, get-purge now e choice s.entries _ h, get-remove t token (purge now s.entries))

  run-kept :
      (e : ℕ) (choice : PendingChoice) (s : Store) (os : List Op)
      → all_spare token e os ≡ true
      → get token s.entries ≡ some (e, choice)
      → get token (run s os).entries ≡ some (e, choice)
  unfolding run all_spare
  run-kept e choice s [] l h = h
  run-kept e choice s (o ∷ os) l h =
      run-kept e choice (step s o) os (ground (arith, l))
        (step-kept e choice s o (ground (arith, l)) h)

  step-gone :
      (s : Store) (o : Op)
      → no_create token o ≡ true
      → get token s.entries ≡ none
      → get token (step s o).entries ≡ none
  unfolding step create pop
  step-gone s (creates t now other) l h = ground (
    arith,
    l,
    get-purge-none now s.entries h,
    get-put t token (now + s.ttl, other) (purge now s.entries),
  )
  step-gone s (pops t now user) l h =
      ground (arith, get-purge-none now s.entries h, get-remove t token (purge now s.entries))

  run-gone :
      (s : Store) (os : List Op)
      → none_create token os ≡ true
      → get token s.entries ≡ none
      → get token (run s os).entries ≡ none
  unfolding run none_create
  run-gone s [] l h = h
  run-gone s (o ∷ os) l h =
      run-gone (step s o) os (ground (arith, l)) (step-gone s o (ground (arith, l)) h)

  create-kept :
      (t : ℕ) (choice : PendingChoice) (s : Store)
      → get token (create token t choice s).entries ≡ some (t + s.ttl, choice)
  unfolding create
  create-kept t choice s =
      ground
        (arith, get-put token token (t + s.ttl, choice) (purge t s.entries), eq_iff token token)

  pop-gone : (now : ℕ) (user : ℤ) (s : Store) → get token (pop token now user s).1.entries ≡ none
  unfolding pop
  pop-gone now user s =
      ground (arith, get-remove token token (purge now s.entries), eq_iff token token)

  -- A choice that is stored at `t` comes back, whatever the others do with their tokens in between,
  -- to a `pop` of its token that is not later than `t` plus the store's `ttl`, if its own user asks;
  -- any other user gets nothing.
  pub pop-create :
      (t now : ℕ) (user : ℤ) (choice : PendingChoice) (s : Store) (os : List Op)
      → all_spare token (t + s.ttl) os ≡ true
      → now ≤ t + s.ttl
      → (pop token now user (run (create token t choice s) os)).0
        ≡ (if choice.user_id == user then some choice else none)
  unfolding pop check_row
  pop-create t now user choice s os l d =
      let kept =
        get-purge now (t + s.ttl) choice (run (create token t choice s) os).entries d
          (run-kept (t + s.ttl) choice (create token t choice s) os l (create-kept t choice s)) in
      ground (arith, d, kept)

  -- A token is used up by the first `pop`, also by another user's: unless it is created anew, every
  -- later `pop` of it by anyone gives nothing.
  pub popped_once :
      (now later : ℕ) (user other : ℤ) (s : Store) (os : List Op)
      → none_create token os ≡ true
      → (pop token later other (run (pop token now user s).1 os)).0 ≡ none
  unfolding pop check_row
  popped_once now later user other s os l =
      let gone =
        get-purge-none later (run (pop token now user s).1 os).entries
          (run-gone (pop token now user s).1 os l (pop-gone now user s)) in
      ground (arith, gone)
