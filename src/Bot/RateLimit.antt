-- ===== src/Bot/RateLimit.antt =====
-- bot/middleware/rate_limit.py: `RateLimitMiddleware`. A clock reading is a number of ticks; what
-- the middleware does with an event is its answer: run the handler, or refuse with a message.
use mix_saving_bot.Common.{
  ℕ, ◌-◌, max, String, Bool, Option, none, some, List, [], ◌∷◌, ◌++◌, ltb, leb, if◌then◌else◌,
  length, string_eq, nat_eq,
}
use mix_saving_bot.Common.Dict.{Dict, get, put}
use mix_saving_bot.Contracts.{ℤ, int_eq}

pub record RateLimit : Type 0 where
  pub max_events : ℕ
  pub window : ℕ
  pub hits : Dict ℤ (List ℕ)

abbrev pub init : ℕ → ℕ → RateLimit
init max_events window = record { max_events = max 1 max_events; window = window; hits = [] }

pub record User : Type 0 where
  pub id : ℤ
  pub is_bot : Bool

pub data Event : Type 0 where
  message callback_query other_event : Option User → Event

abbrev pub from_user : Event → Option User
from_user (message u) = u
from_user (callback_query u) = u
from_user (other_event u) = u

pub data Answer : Type 0 where
  handled : Answer
  refused : Option String → Answer

-- while dq and now - dq[0] > self._window: dq.popleft()
unfoldable pub expire : ℕ → ℕ → List ℕ → List ℕ
expire now window [] = []
expire now window (t ∷ dq) =
    let rest = expire now window dq in if ltb window (now - t) then rest else t ∷ dq

unfoldable pub refusal : Event → Option String
refusal (message u) = some "You are sending too many requests — please slow down."
refusal (callback_query u) = some "Too many actions — try again shortly."
refusal (other_event u) = none

abbrev pub hits_of : ℤ → RateLimit → List ℕ
hits_of user r = elim (get user r.hits) [ none ↦ [] | some dq ↦ dq ]

-- the deque of a user, after the old hits are out of it
unfoldable pub admit : ℕ → ℤ → Event → RateLimit → Answer × RateLimit
unfolding expire refusal
admit now user event r =
    let dq = expire now r.window (hits_of user r) in
    if leb r.max_events (length dq)
    then (refused (refusal event), record r { hits = put user dq r.hits })
    else (handled, record r { hits = put user (dq ++ now ∷ []) r.hits })

unfoldable pub call : ℕ → Event → RateLimit → Answer × RateLimit
unfolding admit
call now event r = elim (from_user event) [
  | none ↦ (handled, r)
  | some u ↦ if u.is_bot then (handled, r) else admit now u.id event r
]
