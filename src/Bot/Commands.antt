-- ===== src/Bot/Commands.antt =====
-- bot/routers/download.py: the handlers of `build_download_router`. Telegram's calls may raise.
use mix_saving_bot.Common.{
  ℕ, String, Bool, Option, none, some, List, [], ◌∷◌, ◌++◌, if◌then◌else◌, ◌==◌, get_elem?,
  string_eq, nat_eq,
}
use mix_saving_bot.Bot.Links.{second_part, link_of, parse_data}
use mix_saving_bot.Bot.PendingChoice.{Store, PendingChoice, create, pop}
use mix_saving_bot.Bot.Submit.{
  Exn, url_error, send_error, Front, FrontEnv, Asked, enqueue_download_job, send_user_notice,
  fmt_timeout,
}
use mix_saving_bot.Common.Exec.{Exec, ok, raised, pure, raise, ◌>>=◌, ◌>>◌}
use mix_saving_bot.Contracts.{ℤ}
use mix_saving_bot.Jobs.Waiter.{pending, cancel}
use mix_saving_bot.Sanitize.{Verdict, accepted, sanitize_error, value_error, validate_for_download}
use mix_saving_bot.Text.{strip, elem}

pub record Message : Type 0 where
  pub chat_id : ℤ
  pub from_user : Option ℤ
  pub message_id : ℤ
  pub text : Option String

-- a tap on a button: its data, and the chat of its message
pub record CallbackQuery : Type 0 where
  pub from_user : Option ℤ
  pub button : Option String
  pub chat_id : Option ℤ

pub record Chat : Type 0 where
  pub front : Front
  pub pending_store : Store
  -- the tokens of the keyboards that were sent, and the answers to taps
  pub keyboards : List String
  pub acks : List (Option String)

pub record ChatEnv : Type 0 where
  pub front : FrontEnv
  -- time.monotonic(), and uuid4().hex for a token
  pub monotonic : ℕ
  pub token : String
  -- whether the last answer to a tap raises, and `edit_reply_markup`
  pub ack_raises : List (Option String) → Bool
  pub edit_raises : Bool
  -- how long a handler waits: whether its future is done then is seen in the state
  pub meanwhile : Front → Front

abbrev pub on_front : {A : Type 0} → Exec Exn Front A → Exec Exn Chat A
on_front m c = let (r, f) = m c.front in (r, record c { front = f })

-- `wait_for` at its end: a future that is not done is cancelled, and the user is told
unfoldable pub end_wait : FrontEnv → ℕ → Exec Exn Front (Unit {0})
unfolding cancel send_user_notice
end_wait env fut f = elim (get_elem? f.waiter.loop fut) [
  | some pending ↦ send_user_notice env fmt_timeout (record f { waiter = cancel fut f.waiter })
  | _ ↦ (ok tt, f)
]

abbrev pub wait_for : ChatEnv → Option ℕ → Exec Exn Front (Unit {0})
wait_for env none f = (ok tt, f)
wait_for env (some fut) f = end_wait env.front fut (env.meanwhile f)

-- `enqueue_download_job` with its wait
unfoldable pub ask_download : ChatEnv → Asked → Exec Exn Chat (Unit {0})
unfolding enqueue_download_job end_wait
ask_download env a = on_front (do fut ← enqueue_download_job env.front a; wait_for env fut)

abbrev pub say : ChatEnv → String → Exec Exn Chat (Unit {0})
say env text = on_front (send_user_notice env.front text)

abbrev pub text_or_empty : Option String → String
text_or_empty none = ""
text_or_empty (some s) = s

abbrev pub asked_of : Message → ℤ → String → String → Asked
asked_of message user url format_id = record {
  chat_id = message.chat_id;
  user_id = user;
  reply_to_message_id = message.message_id;
  source_url = url;
  format_id = some format_id;
}

-- the rest of `cmd_audio` and `cmd_video`, by what follows the command
abbrev pub by_argument :
    ChatEnv → Message → ℤ → String → String → Option String → Exec Exn Chat (Unit {0})
by_argument env message user format_id usage none = say env usage
by_argument env message user format_id usage (some rest) =
    ask_download env (asked_of message user (strip rest) format_id)

unfoldable pub cmd_audio : ChatEnv → Message → Exec Exn Chat (Unit {0})
unfolding second_part ask_download
cmd_audio env message = elim message.from_user [
  | none ↦ pure tt
  | some user ↦
      by_argument env message user "audio" "Usage: /audio <url>"
        (second_part (text_or_empty message.text))
]

unfoldable pub cmd_video : ChatEnv → Message → Exec Exn Chat (Unit {0})
unfolding second_part ask_download
cmd_video env message = elim message.from_user [
  | none ↦ pure tt
  | some user ↦
      by_argument env message user "video" "Usage: /video <url>"
        (second_part (text_or_empty message.text))
]

-- pending_store.create
abbrev pub create_choice : ChatEnv → PendingChoice → Exec Exn Chat (Unit {0})
create_choice env choice c =
    (ok tt, record c { pending_store = create env.token env.monotonic choice c.pending_store })

abbrev pub show_keyboard : ChatEnv → Exec Exn Chat (Unit {0})
show_keyboard env c = (ok tt, record c { keyboards = c.keyboards ++ env.token ∷ [] })

-- by the verdict on the link
unfoldable pub offer : ChatEnv → Message → ℤ → String → Verdict → Exec Exn Chat (Unit {0})
unfolding create send_user_notice
offer env message user url accepted = do
  create_choice env (record { user_id = user; url = url; reply_to_message_id = message.message_id })
  say env "Choose what to download:"
  show_keyboard env
offer env message user url (sanitize_error code text) = say env text
offer env message user url value_error = raise url_error

abbrev pub by_link : ChatEnv → Message → ℤ → Option String → Exec Exn Chat (Unit {0})
by_link env message user none = say env "I could not find an http(s) URL in that message."
by_link env message user (some url) =
    offer env message user url (validate_for_download env.front.lib url env.front.constraints)

abbrev pub by_sender : ChatEnv → Message → Option ℤ → Exec Exn Chat (Unit {0})
by_sender env message none = pure tt
by_sender env message (some user) = by_link env message user (link_of (text_or_empty message.text))

unfoldable pub implicit_url_prompt : ChatEnv → Message → Exec Exn Chat (Unit {0})
unfolding link_of offer
implicit_url_prompt env message = by_sender env message message.from_user

-- query.answer
abbrev pub ack : ChatEnv → Option String → Exec Exn Chat (Unit {0})
ack env alert c =
    let acks = c.acks ++ alert ∷ [] in
    (if env.ack_raises acks then raised send_error else ok tt, record c { acks = acks })

abbrev pub edit_markup : ChatEnv → Exec Exn Chat (Unit {0})
edit_markup env c = (if env.edit_raises then raised send_error else ok tt, c)

abbrev pub format_of : String → String
format_of kind = if kind == "v" then "video" else "audio"

abbrev pub choice_asked : ℤ → String → PendingChoice → Asked
choice_asked chat_id kind payload = record {
  chat_id = chat_id;
  user_id = payload.user_id;
  reply_to_message_id = payload.reply_to_message_id;
  source_url = payload.url;
  format_id = some (format_of kind);
}

abbrev pub in_chat : ChatEnv → String → PendingChoice → Option ℤ → Exec Exn Chat (Unit {0})
in_chat env kind payload none = pure tt
in_chat env kind payload (some chat_id) = do
  edit_markup env
  ask_download env (choice_asked chat_id kind payload)

-- by what `pending_store.pop` gives
unfoldable pub by_payload :
    ChatEnv → String → Option ℤ → Option PendingChoice → Exec Exn Chat (Unit {0})
unfolding ask_download
by_payload env kind chat_id none = ack env (some "This menu expired — send your link again.")
by_payload env kind chat_id (some payload) = do ack env none; in_chat env kind payload chat_id

abbrev pub take_choice : ChatEnv → String → ℤ → Exec Exn Chat (Option PendingChoice)
take_choice env token user c =
    let (o, store) = pop token env.monotonic user c.pending_store in
    (ok o, record c { pending_store = store })

-- by the parts of the data
unfoldable pub by_parts :
    ChatEnv → ℤ → Option ℤ → Option (String × String) → Exec Exn Chat (Unit {0})
unfolding pop by_payload
by_parts env user chat_id none = ack env none
by_parts env user chat_id (some (kind, token)) =
    if elem kind ("v" ∷ "a" ∷ [])
    then (do payload ← take_choice env token user; by_payload env kind chat_id payload)
    else ack env none

abbrev pub by_data : ChatEnv → Option ℤ → Option ℤ → Option String → Exec Exn Chat (Unit {0})
by_data env none chat_id button = pure tt
by_data env (some user) chat_id none = pure tt
by_data env (some user) chat_id (some button) = by_parts env user chat_id (parse_data button)

unfoldable pub implicit_url_commit : ChatEnv → CallbackQuery → Exec Exn Chat (Unit {0})
unfolding parse_data by_parts
implicit_url_commit env query = by_data env query.from_user query.chat_id query.button
