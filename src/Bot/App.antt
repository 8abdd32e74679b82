-- ===== src/Bot/App.antt =====
-- bot/app.py: the dispatcher, with the rate limit as an outer middleware of its updates. aiogram is a
-- parameter: `from_user` is `getattr(update, "from_user", None)` of an `Update` object.
use mix_saving_bot.Common.{ℕ, Option, none, some, List, length}
use mix_saving_bot.Bot.RateLimit.{RateLimit, User, Answer, init, call, other_event}

pub record Aiogram : Type 1 where
  pub Update : Type 0
  pub from_user : Update → Option User

-- `_Peek`, over the items of the queue
pub record Peek (M : Type 0) : Type 0 where
  pub items : List M

abbrev pub pending_qsize : {M : Type 0} → Peek M → ℕ
pending_qsize p = length p.items

pub record Dispatcher (M : Type 0) : Type 0 where
  pub rate_limit : RateLimit
  pub queue_peek : Option (Peek M)

abbrev pub peek_of : {M : Type 0} → Option (List M) → Option (Peek M)
peek_of none = none
peek_of (some items) = some (record { items = items })

unfoldable pub setup_dispatcher : {M : Type 0} → ℕ → ℕ → Option (List M) → Dispatcher M
setup_dispatcher max_events window_seconds queue_for_depth = record {
  rate_limit = init max_events window_seconds;
  queue_peek = peek_of queue_for_depth;
}

module _ (a : Aiogram) where
  open a use {Update, from_user}

  -- an `Update` is neither a `Message` nor a `CallbackQuery`
  unfoldable feed_update : ℕ → Update → RateLimit → Answer × RateLimit
  unfolding call
  feed_update now u r = call now (other_event (from_user u)) r
