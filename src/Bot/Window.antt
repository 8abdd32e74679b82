-- ===== src/Bot/Window.antt =====
-- bot/middleware/rate_limit.py: the specification by a full history, and the lemmas on the deques.
use mix_saving_bot.Common.{
  ℕ, ◌-◌, ◌≤◌, ◌≡◌, refl, Bool, true, ◌&&◌, none, some, List, [], ◌∷◌, ◌++◌, arith, leb,
  if◌then◌else◌, ◌==◌, length, string_eq, nat_eq,
}
use mix_saving_bot.Contracts.{ℤ, int_eq}
use mix_saving_bot.Bot.RateLimit.{
  handled, refusal, refused, from_user, Answer, call, Event, expire, RateLimit,
}

-- the specification: every event that was let through, oldest first, by user
abbrev pub History : Type 0
History = List (ℤ × ℕ)

-- the hits of a user that are at most `window` old
unfoldable pub recent : ℕ → ℕ → ℤ → History → List ℕ
recent now window user [] = []
recent now window user ((u, t) ∷ h) =
    let rest = recent now window user h in
    if u == user && leb (now - t) window then t ∷ rest else rest

abbrev pub spec_admit : ℕ → ℕ → ℕ → ℤ → Event → History → Answer × History
spec_admit most window now user event h =
    if leb most (length (recent now window user h))
    then (refused (refusal event), h)
    else (handled, h ++ (user, now) ∷ [])

unfoldable pub spec_call : ℕ → ℕ → ℕ → Event → History → Answer × History
spec_call most window now event h = elim (from_user event) [
  | none ↦ (handled, h)
  | some u ↦ if u.is_bot then (handled, h) else spec_admit most window now u.id event h
]

unfoldable pub answers : RateLimit → List (ℕ × Event) → List Answer
unfolding call
answers r [] = []
answers r ((now, event) ∷ es) = let (a, r') = call now event r in a ∷ answers r' es

unfoldable pub spec_answers : ℕ → ℕ → History → List (ℕ × Event) → List Answer
unfolding spec_call
spec_answers most window h [] = []
spec_answers most window h ((now, event) ∷ es) =
    let (a, h') = spec_call most window now event h in a ∷ spec_answers most window h' es

-- the clock does not run backwards
unfoldable pub is_monotone : ℕ → List (ℕ × Event) → Bool
is_monotone now [] = true
is_monotone now ((t, event) ∷ es) = leb now t && is_monotone t es

unfoldable pub all_le : ℕ → List ℕ → Bool
all_le n [] = true
all_le n (t ∷ dq) = leb t n && all_le n dq

pub all_le_mono : (n m : ℕ) (dq : List ℕ) → n ≤ m → all_le n dq ≡ true → all_le m dq ≡ true
unfolding all_le
all_le_mono n m [] l h = refl
all_le_mono n m (t ∷ dq) l h = ground (arith, l, h, all_le_mono n m dq l)

pub all_le-append : (n : ℕ) (dq : List ℕ) → all_le n dq ≡ true → all_le n (dq ++ n ∷ []) ≡ true
unfolding all_le
all_le-append n [] h = ground arith
all_le-append n (t ∷ dq) h = ground (arith, h, all_le-append n dq)

module _ (now window : ℕ) where
  pub all_le-expire :
      (n : ℕ) (dq : List ℕ) → all_le n dq ≡ true → all_le n (expire now window dq) ≡ true
  unfolding all_le expire
  all_le-expire n [] h = refl
  all_le-expire n (t ∷ dq) h = ground (arith, h, all_le-expire n dq)

  -- hits that are dropped now would be dropped later
  pub expire-expire :
      (later : ℕ) (dq : List ℕ)
      → now ≤ later
      → expire later window (expire now window dq) ≡ expire later window dq
  unfolding expire
  expire-expire later [] l = refl
  expire-expire later (t ∷ dq) l = ground (arith, l, expire-expire later dq l)

  pub expire-append :
      (n : ℕ) (dq : List ℕ)
      → all_le n dq ≡ true
      → expire now window (dq ++ n ∷ [])
        ≡ expire now window dq ++ (if leb (now - n) window then n ∷ [] else [])
  unfolding expire all_le
  expire-append n [] h = ground arith
  expire-append n (t ∷ dq) h = ground (arith, h, expire-append n dq)

  pub recent-append :
      (user u : ℤ) (n : ℕ) (h : History)
      → recent now window user (h ++ (u, n) ∷ [])
        ≡ recent now window user h ++ (if u == user && leb (now - n) window then n ∷ [] else [])
  unfolding recent
  recent-append user u n [] = refl
  recent-append user u n ((v, t) ∷ h) = ground (arith, recent-append user u n h)
