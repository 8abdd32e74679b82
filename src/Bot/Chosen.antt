-- ===== src/Bot/Chosen.antt =====
-- bot/routers/download.py: from a link in a chat, over the keyboard, to the download.
use mix_saving_bot.Common.{
  ◌≡◌, Bool, true, false, not, ◌&&◌, none, some, [], ◌∷◌, ◌++◌, ◌==◌, string_eq, nat_eq,
}
use mix_saving_bot.Bot.Links.{link_of, callback_data}
use mix_saving_bot.Bot.PendingChoice.{PendingChoice, pop}
use Prim.Native.Char.{code}
use Prim.Native.String.{String, ◌++◌ as ◌+s◌}
use mix_saving_bot.Bot.Commands.{Chat, ChatEnv, Message, CallbackQuery, text_or_empty}
use mix_saving_bot.Contracts.{ℤ, int_eq}
use mix_saving_bot.Sanitize.{accepted, validate_for_download}

-- the two buttons of a keyboard
pub data Kind : Type 0 where
  video audio : Kind

abbrev pub letter : Kind → String
letter video = "v"
letter audio = "a"

-- a text without a colon
abbrev no_colon : String → Bool
no_colon String.[] = true
no_colon (String.◌∷◌ c s) = not (code c == 58) && no_colon s

-- a message with an allowed link, which is answered with the keyboard
pub record Offered (env : ChatEnv) (message : Message) (user : ℤ) (url : String) (c : Chat)
    : Type 0 where
  pub from : message.from_user ≡ some user
  pub link : link_of (text_or_empty message.text) ≡ some url
  pub allowed : validate_for_download env.front.lib url env.front.constraints ≡ accepted
  pub told : env.front.notice_raises (c.front.notices ++ "Choose what to download:" ∷ []) ≡ false

abbrev pub choice_of : Message → ℤ → String → PendingChoice
choice_of message user url = record {
  user_id = user;
  url = url;
  reply_to_message_id = message.message_id;
}

module _ (env : ChatEnv) (message : Message) (user : ℤ) (url : String) (c : Chat)
    (v : Offered env message user url c) where
  module _ (later : ChatEnv) (d : Chat) (tapper chat_id : ℤ) (kind : Kind)
      (acks : later.ack_raises (d.acks ++ none ∷ []) ≡ false)
      (edits : later.edit_raises ≡ false) where
    abbrev pub tap : CallbackQuery
    tap = record {
      from_user = some tapper;
      button = some (callback_data (letter kind) env.token);
      chat_id = some chat_id;
    }

    -- the chat after the tap: its choice is used up
    abbrev pub tapped : Chat
    tapped = record d { pending_store = (pop env.token later.monotonic tapper d.pending_store).1 }
