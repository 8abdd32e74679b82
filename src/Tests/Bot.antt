-- ===== src/Tests/Bot.antt =====
-- The theorems of `Bot` on concrete data.
use mix_saving_bot.Common.{ℕ, ◌≡◌, refl, false, some, List, [], ◌∷◌}
use mix_saving_bot.Bot.Window.{spec_answers, answers, is_monotone}
use mix_saving_bot.Contracts.{pos}
use mix_saving_bot.Bot.RateLimit.{Event, init, message}
use mix_saving_bot.Bot.Deques.{answers-init}
use mix_saving_bot.Bot.PendingChoice.{PendingChoice}
use mix_saving_bot.Bot.Tokens.{Op, creates, pops}

abbrev from : ℕ → Event
from n = message (some (record { id = pos n; is_bot = false }))

-- the second event is refused, and the third comes after the window
abbrev events : List (ℕ × Event)
events = (1, from 7) ∷ (2, from 7) ∷ (2, from 8) ∷ (70, from 7) ∷ []

answers-init_example : answers (init 1 60) events ≡ spec_answers 1 60 [] events
unfolding is_monotone
answers-init_example = answers-init 1 60 events refl

abbrev choice : PendingChoice
choice = record { user_id = pos 7; url = "https://youtu.be/a"; reply_to_message_id = pos 3 }

abbrev between : List Op
between = creates "t2" 20 choice ∷ pops "t2" 30 (pos 9) ∷ []
