-- ===== src/Runner/Redis.antt =====
-- services/queue/redis_queue.py: the producer and the consumer over a Redis stream. The replies of
-- Redis and the texts of numbers are parameters.
use mix_saving_bot.Common.{
  ℕ, String, Bool, Option, none, some, List, [], ◌∷◌, ◌++◌, if◌then◌else◌, string_eq, nat_eq,
}
use mix_saving_bot.Common.Exec.{Exec, Result, ok, raised}
use mix_saving_bot.Common.Dict.{Dict, get}
use mix_saving_bot.Contracts.{QueueMessage}

-- str of a time and float of a text, which may raise
pub record Numbers : Type 0 where
  pub str : ℕ → String
  pub float : String → Option ℕ

abbrev pub Fields : Type 0
Fields = Dict String String

-- the fields that `RedisQueueProducer.enqueue` adds to the stream
abbrev pub fields_of : Numbers → QueueMessage → Fields
fields_of lib msg =
    ("job_id", msg.job_id)
    ∷ ("correlation_id", msg.correlation_id)
    ∷ ("enqueued_at_unix", lib.str msg.enqueued_at_unix)
    ∷ []

abbrev pub text_or_empty : Option String → String
text_or_empty none = ""
text_or_empty (some s) = s

-- float(data.get("enqueued_at_unix", time.time()))
abbrev pub time_of : Numbers → ℕ → Option String → Option ℕ
time_of lib now none = some now
time_of lib now (some s) = lib.float s

unfoldable pub parse_message : Numbers → ℕ → Fields → Option QueueMessage
unfolding get
parse_message lib now fields = elim (time_of lib now (get "enqueued_at_unix" fields)) [
  | none ↦ none
  | some enqueued_at ↦ some (record {
    job_id = text_or_empty (get "job_id" fields);
    correlation_id = text_or_empty (get "correlation_id" fields);
    enqueued_at_unix = enqueued_at;
  })
]

-- an entry of the stream: its id and its fields
abbrev pub Entry : Type 0
Entry = String × Fields

module _ {S : Type 0} (handler : QueueMessage → Exec String S (Unit {0})) where
  -- the entries that were acknowledged, and the state that the handler works on
  abbrev pub Consumer : Type 0
  Consumer = List String × S

  -- xack, which may raise; a refused acknowledgement is logged
  abbrev pub acked :
      (String → Bool) → String → Result String (Unit {0}) × S → List String → Consumer
  acked xack_raises entry_id (ok u, s) done =
      if xack_raises entry_id then (done, s) else (done ++ entry_id ∷ [], s)
  acked xack_raises entry_id (raised x, s) done = (done, s)

  -- the `try` of one entry
  abbrev pub consume : (String → Bool) → String → Option QueueMessage → Consumer → Consumer
  consume xack_raises entry_id none c = c
  consume xack_raises entry_id (some msg) (done, s) =
      acked xack_raises entry_id (handler msg s) done

  unfoldable pub consume_all : Numbers → (String → Bool) → ℕ → List Entry → Consumer → Consumer
  unfolding parse_message
  consume_all lib xack_raises now [] c = c
  consume_all lib xack_raises now ((entry_id, fields) ∷ entries) c =
      consume_all lib xack_raises now entries
        (consume xack_raises entry_id (parse_message lib now fields) c)

  -- the loop of `subscribe` over the replies of `xreadgroup`; `is_closed` is read before each one
  unfoldable pub subscribe_stream :
      Numbers → (String → Bool) → (S → Bool) → ℕ → List (List Entry) → Consumer → Consumer
  unfolding consume_all
  subscribe_stream lib xack_raises is_closed now [] c = c
  subscribe_stream lib xack_raises is_closed now (entries ∷ replies) c =
      let rest =
        subscribe_stream lib xack_raises is_closed now replies
          (consume_all lib xack_raises now entries c) in
      if is_closed c.1 then c else rest

abbrev pub entry_of : Numbers → String × QueueMessage → Entry
entry_of lib (entry_id, msg) = (entry_id, fields_of lib msg)
