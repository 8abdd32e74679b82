-- ===== src/StartUp/Shutdown.antt =====
-- run_bot.py: how `main` ends.
use mix_saving_bot.Common.{◌≡◌, refl, ◌≢◌, none, some, List, [], ◌∷◌, ◌++◌, arith, eq_iff}
use mix_saving_bot.Text.{strip, upper}
use mix_saving_bot.Settings.Values.{Settings}
use mix_saving_bot.StartUp.{
  closes_session, closes_consumer, closes_producer, polls, awaits_workers, logs_at, stops_workers,
  suppressed, starts_workers, Ending, returns, raises, cancels, Endings, Effect, ended, main,
  open_queue, serve, shut_down,
}

-- no `close` is cancelled
pub record IsUncancelled (e : Endings) : Type 0 where
  pub producer : e.producer ≢ cancels
  pub consumer : e.consumer ≢ cancels
  pub session : e.session ≢ cancels

-- all that the end of the program does
abbrev pub all_closed : List Effect
all_closed =
    stops_workers ∷ awaits_workers ∷ closes_producer ∷ closes_consumer ∷ closes_session ∷ []

-- what stands before the workers, for settings that are accepted
abbrev pub opened : Settings → Effect → List Effect
opened s queue = logs_at (upper s.log_level) ∷ queue ∷ []

suppressed-calm :
    (e : Ending) (effect : Effect) (rest : List Effect)
    → e ≢ cancels
    → suppressed e effect (rest, none) ≡ (effect ∷ rest, none)
suppressed-calm returns effect rest ne = refl
suppressed-calm raises effect rest ne = refl
suppressed-calm cancels effect rest ne = absurd (ne refl)

shut_down-calm : (e : Endings) → IsUncancelled e → shut_down e ≡ (all_closed, none)
unfolding shut_down
shut_down-calm e v = ground (arith, v.session, v.consumer, v.producer)

-- With a token and a queue, and if no `close` is cancelled, `main` ends as the polling does, and has
-- stopped the workers and closed the producer, the consumer and the session in this order, even where
-- the polling, the workers or a `close` raise.
pub main-closes :
    (s : Settings) (e : Endings) (queue : Effect)
    → strip s.bot_token ≢ ""
    → open_queue s ≡ some queue
    → IsUncancelled e
    → main s e ≡ (ended e.polling, opened s queue ++ starts_workers ∷ polls ∷ all_closed)
unfolding main serve
main-closes s e queue named q v =
    ground (arith, named, q, eq_iff (strip s.bot_token) "", shut_down-calm e v)
