-- ===== src/Bot/Deques.antt =====
-- bot/middleware/rate_limit.py: the deques, which forget old hits, against the full history.
use mix_saving_bot.Common.{
  ℕ, ◌≤◌, max, ◌≡◌, refl, inl, inr, Bool, true, false, Option, none, some, List, [], ◌∷◌, ◌++◌,
  arith, leb, if◌then◌else◌, Bool-cases, length, string_eq, nat_eq,
}
use mix_saving_bot.Common.Dict.{Dict, get, put, get-put}
use mathlib.Core.List.{append-nil}
use mix_saving_bot.Contracts.{ℤ, int_eq, int_beq_iff}
use mix_saving_bot.Bot.RateLimit.{
  from_user, Event, call, Answer, User, admit, expire, RateLimit, init, handled,
}
use mix_saving_bot.Bot.Window.{
  recent-append, spec_admit, expire-append, expire-expire, is_monotone, recent, all_le-append,
  all_le-expire, spec_call, spec_answers, answers, all_le_mono, all_le, History,
}

abbrev deque : ℤ → Dict ℤ (List ℕ) → List ℕ
deque u hits = elim (get u hits) [ none ↦ [] | some dq ↦ dq ]

-- the deques hold what counts from `now` on
record Tracks (now window : ℕ) (hits : Dict ℤ (List ℕ)) (h : History) : Type 0 where
  past : (u : ℤ) → all_le now (deque u hits) ≡ true
  agree :
      (u : ℤ) (later : ℕ)
      → now ≤ later
      → expire later window (deque u hits) ≡ recent later window u h

module _ (most window : ℕ) where
  abbrev limit : Dict ℤ (List ℕ) → RateLimit
  limit hits = record { max_events = most; window = window; hits = hits }

  later-Tracks :
      (now later : ℕ) (hits : Dict ℤ (List ℕ)) (h : History)
      → now ≤ later
      → Tracks now window hits h
      → Tracks later window hits h
  later-Tracks now later hits h l v = record {
    past = λ u. all_le_mono now later (deque u hits) l (v.past u);
    agree = λ u then' m. v.agree u then' (omega (arith, l, m));
  }

  -- the deque of a user is cleaned
  clean-Tracks :
      (now : ℕ) (user : ℤ) (hits : Dict ℤ (List ℕ)) (h : History)
      → Tracks now window hits h
      → Tracks now window (put user (expire now window (deque user hits)) hits) h
  clean-Tracks now user hits h v = record {
    past = λ u. ground (
      arith,
      int_beq_iff user u,
      get-put user u (expire now window (deque user hits)) hits,
      all_le-expire now window now (deque user hits) (v.past user),
      v.past u,
    );
    agree = λ u later l. ground (
      arith,
      int_beq_iff user u,
      get-put user u (expire now window (deque user hits)) hits,
      expire-expire now window later (deque user hits) l,
      v.agree u later l,
    );
  }

  -- and a hit is added
  hit-Tracks :
      (now : ℕ) (user : ℤ) (hits : Dict ℤ (List ℕ)) (h : History)
      → Tracks now window hits h
      → Tracks now window
          (put user (expire now window (deque user hits) ++ now ∷ []) hits)
          (h ++ (user, now) ∷ [])
  hit-Tracks now user hits h v = record {
    past = λ u. ground (
      arith,
      int_beq_iff user u,
      get-put user u (expire now window (deque user hits) ++ now ∷ []) hits,
      all_le-append now (expire now window (deque user hits))
          (all_le-expire now window now (deque user hits) (v.past user)),
      v.past u,
    );
    agree = λ u later l. ground (
      arith,
      int_beq_iff user u,
      get-put user u (expire now window (deque user hits) ++ now ∷ []) hits,
      expire-append later window now (expire now window (deque user hits))
          (all_le-expire now window now (deque user hits) (v.past user)),
      expire-expire now window later (deque user hits) l,
      recent-append later window u user now h,
      append-nil (recent later window u h),
      v.agree u later l,
    );
  }

  -- the middleware answers as the specification, and what it then holds is right
  record Follows (now : ℕ) (code : Answer × RateLimit) (spec : Answer × History) : Type 0 where
    hits : Dict ℤ (List ℕ)
    is_answer : code.0 ≡ spec.0
    is_limit : code.1 ≡ limit hits
    tracks : Tracks now window hits spec.1

  admit-Follows :
      (now : ℕ) (user : ℤ) (event : Event) (hits : Dict ℤ (List ℕ)) (h : History)
      → Tracks now window hits h
      → Follows now (admit now user event (limit hits)) (spec_admit most window now user event h)
  unfolding admit
  admit-Follows now user event hits h v =
      rw⁻¹ (v.agree user now (omega arith))
        elim (Bool-cases (leb most (length (expire now window (deque user hits))))) [
          | inl full ↦ rw full (record {
            hits = put user (expire now window (deque user hits)) hits;
            is_answer = refl;
            is_limit = refl;
            tracks = clean-Tracks now user hits h v;
          })
          | inr room ↦ rw room (record {
            hits = put user (expire now window (deque user hits) ++ now ∷ []) hits;
            is_answer = refl;
            is_limit = refl;
            tracks = hit-Tracks now user hits h v;
          })
        ]

  spare_Follows :
      (now : ℕ) (b : Bool) (hits : Dict ℤ (List ℕ)) (h : History) (code : Answer × RateLimit)
      (spec : Answer × History)
      → Tracks now window hits h
      → Follows now code spec
      → Follows now (if b then (handled, limit hits) else code) (if b then (handled, h) else spec)
  spare_Follows now true hits h code spec v f = record {
    hits = hits;
    is_answer = refl;
    is_limit = refl;
    tracks = v;
  }
  spare_Follows now false hits h code spec v f = f

  user_Follows :
      (now : ℕ) (o : Option User) (event : Event) (hits : Dict ℤ (List ℕ)) (h : History)
      → Tracks now window hits h
      → Follows now
          (elim o [
            | none ↦ (handled, limit hits)
            | some u ↦ if u.is_bot then (handled, limit hits) else admit now u.id event (limit hits)
          ])
          (elim o [
            | none ↦ (handled, h)
            | some u ↦ if u.is_bot then (handled, h) else spec_admit most window now u.id event h
          ])
  user_Follows now none event hits h v = record {
    hits = hits;
    is_answer = refl;
    is_limit = refl;
    tracks = v;
  }
  user_Follows now (some u) event hits h v =
      spare_Follows now u.is_bot hits h (admit now u.id event (limit hits))
        (spec_admit most window now u.id event h) v (admit-Follows now u.id event hits h v)

  call-Follows :
      (now : ℕ) (event : Event) (hits : Dict ℤ (List ℕ)) (h : History)
      → Tracks now window hits h
      → Follows now (call now event (limit hits)) (spec_call most window now event h)
  unfolding call spec_call
  call-Follows now event hits h v = user_Follows now (from_user event) event hits h v

  answers-Tracks :
      (now : ℕ) (hits : Dict ℤ (List ℕ)) (h : History) (es : List (ℕ × Event))
      → is_monotone now es ≡ true
      → Tracks now window hits h
      → answers (limit hits) es ≡ spec_answers most window h es
  unfolding answers spec_answers is_monotone
  answers-Tracks now hits h [] m v = refl
  answers-Tracks now hits h ((t, event) ∷ es) m v =
      let f = call-Follows t event hits h (later-Tracks now t hits h (ground (arith, m)) v) in
      let rest =
        answers-Tracks t f.hits (spec_call most window t event h).1 es (ground (arith, m))
          f.tracks in
      simp (f.is_answer, f.is_limit, rest)

-- While the clock does not run backwards, the middleware answers any sequence of events, of any
-- users, as if it kept every hit for ever: it lets an event of a user through exactly if fewer than
-- `max_events` (at least 1) events of that user were let through within the last `window`, and it
-- never stops a bot or an event without a user.
pub answers-init :
    (max_events window : ℕ) (es : List (ℕ × Event))
    → is_monotone 0 es ≡ true
    → answers (init max_events window) es ≡ spec_answers (max 1 max_events) window [] es
unfolding get all_le expire recent
answers-init max_events window es m =
    answers-Tracks (max 1 max_events) window 0 [] [] es m
      (record { past = λ u. refl; agree = λ u later l. refl })
