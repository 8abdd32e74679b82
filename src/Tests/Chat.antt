-- ===== src/Tests/Chat.antt =====
-- The theorems of `Bot.Chosen` and `Bot.Entry` on concrete data: a link, a keyboard and a tap.
use mix_saving_bot.Common.{ℕ, ◌≡◌, refl, false, ◌&&◌, some, List, [], ◌∷◌, if◌then◌else◌}
use mix_saving_bot.Tests.Data.{url_library}
use mix_saving_bot.Bot.Tokens.{Op, creates, run}
use mix_saving_bot.Bot.PendingChoice.{init as store_init}
use mix_saving_bot.Bot.Commands.{Chat, ChatEnv, Message, implicit_url_prompt, choice_asked}
use mix_saving_bot.Bot.Chosen.{choice_of}
use mix_saving_bot.Bot.Entry.{message_of, goes_on, submitted, enqueue_download_job_lem}
use mix_saving_bot.Bot.Submit.{Asked, Front, FrontEnv, enqueue_download_job}
use mix_saving_bot.Jobs.Waiter.{init as waiter_init}
use mix_saving_bot.Metrics.{empty}
use mix_saving_bot.Contracts.{pos, int_eq}
use mix_saving_bot.Sanitize.{validate_for_download}
use mix_saving_bot.Text.{strip, lower}

abbrev front : Front
front = record { repo = []; waiter = waiter_init 4; metrics = empty; notices = []; messages = [] }

abbrev front_env : FrontEnv
front_env = record {
  lib = url_library;
  constraints = record {
    max_duration_sec = 7200;
    max_file_size_bytes = 2000;
    allowed_hosts = "youtu.be" ∷ [];
  };
  high_water = 5;
  pending_qsize = some 0;
  digits = λ n. "7";
  notice_raises = λ notices. false;
  closed = false;
  now = 10;
  fresh = "j1";
  correlation_id = "c1";
}

abbrev chat_env : ℕ → ChatEnv
chat_env now = record {
  front = front_env;
  monotonic = now;
  token = "t1";
  ack_raises = λ acks. false;
  edit_raises = false;
  meanwhile = λ f. f;
}

abbrev chat : Chat
chat = record { front = front; pending_store = store_init 720; keyboards = []; acks = [] }

abbrev message : Message
message = record {
  chat_id = pos 7;
  from_user = some (pos 8);
  message_id = pos 3;
  text = some "look: https://youtu.be/a.";
}

abbrev others : List Op
others = creates "t2" 20 (choice_of message (pos 9) "https://youtu.be/b") ∷ []

abbrev later_chat : Chat
later_chat = record (implicit_url_prompt (chat_env 10) message chat).1 {
  pending_store = run (implicit_url_prompt (chat_env 10) message chat).1.pending_store others;
}

abbrev asked : Asked
asked = choice_asked (pos 7) "a" (choice_of message (pos 8) "https://youtu.be/a")

enqueue_download_job_lem_example :
    let ((rec, fresh), service) = submitted front_env asked front in
    ((enqueue_download_job front_env asked front).1.repo ≡ service.repo)
    × ((enqueue_download_job front_env asked front).1.messages
        ≡ (if fresh && goes_on front_env front rec then message_of front_env rec ∷ [] else []))
unfolding validate_for_download strip lower
enqueue_download_job_lem_example = enqueue_download_job_lem front_env asked front refl refl
