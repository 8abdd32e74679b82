-- ===== src/Runner/Acknowledged.antt =====
-- services/queue/redis_queue.py: which messages the consumer handles and acknowledges.
use mix_saving_bot.Common.{
  ℕ, String, ◌≡◌, refl, sym, ap, ◌∙◌, inl, inr, Bool, true, false, not, ◌&&◌, some, List, [], ◌∷◌,
  ◌++◌, map, if◌then◌else◌, Bool-cases,
}
use mix_saving_bot.Contracts.{QueueMessage}
use mix_saving_bot.Runner.Redis.{
  fields_of, acked, entry_of, consume, subscribe_stream, consume_all, parse_message, Numbers,
}
use mix_saving_bot.Common.Exec.{raised, Exec, ok, Result}
use mathlib.Core.List.{append-nil, append_assoc}

abbrev pub is_ok : Result String (Unit {0}) → Bool
is_ok (ok u) = true
is_ok (raised x) = false

module _ {S : Type 0} (handler : QueueMessage → Exec String S (Unit {0})) where
  -- What is to become of the messages, without the stream: whether the handler returns for each, as
  -- they are handed to it one after the other, and the state that it leaves.
  unfoldable pub fates : List (String × QueueMessage) → S → List (String × Bool)
  fates [] s = []
  fates ((entry_id, msg) ∷ msgs) s =
      (entry_id, is_ok (handler msg s).0) ∷ fates msgs (handler msg s).1

  unfoldable pub state_after : List (String × QueueMessage) → S → S
  state_after [] s = s
  state_after ((entry_id, msg) ∷ msgs) s = state_after msgs (handler msg s).1

  -- the messages of the replies that come before the consumer is found closed
  unfoldable pub handed_over :
      (S → Bool) → List (List (String × QueueMessage)) → S → List (String × QueueMessage)
  unfolding state_after
  handed_over is_closed [] s = []
  handed_over is_closed (msgs ∷ replies) s =
      let rest = handed_over is_closed replies (state_after msgs s) in
      if is_closed s then [] else msgs ++ rest

-- the ids of the messages whose handling returned, less those that Redis refuses to acknowledge
abbrev pub to_acknowledge : (String → Bool) → List (String × Bool) → List String
to_acknowledge xack_raises [] = []
to_acknowledge xack_raises ((entry_id, fine) ∷ rs) =
    let rest = to_acknowledge xack_raises rs in
    if fine && not (xack_raises entry_id) then entry_id ∷ rest else rest

module _ (lib : Numbers) (reads_back : (n : ℕ) → lib.float (lib.str n) ≡ some n) where
  parse_message-fields_of :
      (now : ℕ) (msg : QueueMessage) → parse_message lib now (fields_of lib msg) ≡ some msg
  unfolding parse_message
  parse_message-fields_of now msg = rw (reads_back msg.enqueued_at_unix) refl

  module _ {S : Type 0} (handler : QueueMessage → Exec String S (Unit {0}))
      (xack_raises : String → Bool) (is_closed : S → Bool) (now : ℕ) where
    consume_returns :
        (entry_id : String) (msg : QueueMessage) (done : List String) (s : S)
        → consume handler xack_raises entry_id (some msg) (done, s) ≡ (
          done ++ to_acknowledge xack_raises ((entry_id, is_ok (handler msg s).0) ∷ []),
          (handler msg s).1,
        )
    consume_returns entry_id msg done s = split (handler msg s)
      where
        split :
            (r : Result String (Unit {0}) × S)
            → acked handler xack_raises entry_id r done
              ≡ (done ++ to_acknowledge xack_raises ((entry_id, is_ok r.0) ∷ []), r.1)
        split (ok u, t) = elim (Bool-cases (xack_raises entry_id)) [
          | inl refused ↦ rw refused (ap (λ l. (l, t)) (sym (append-nil done)))
          | inr taken ↦ rw taken refl
        ]
        split (raised x, t) = ap (λ l. (l, t)) (sym (append-nil done))

    to_acknowledge-cons :
        (r : String × Bool) (rs : List (String × Bool))
        → to_acknowledge xack_raises (r ∷ []) ++ to_acknowledge xack_raises rs
          ≡ to_acknowledge xack_raises (r ∷ rs)
    to_acknowledge-cons (entry_id, fine) rs =
        elim (Bool-cases (fine && not (xack_raises entry_id))) [
          | inl sent ↦ rw sent refl
          | inr kept ↦ rw kept refl
        ]

    consume_all-entries :
        (msgs : List (String × QueueMessage)) (done : List String) (s : S)
        → consume_all handler lib xack_raises now (map (entry_of lib) msgs) (done, s)
          ≡ (done ++ to_acknowledge xack_raises (fates handler msgs s), state_after handler msgs s)
    unfolding consume_all fates state_after
    consume_all-entries [] done s = ap (λ l. (l, s)) (sym (append-nil done))
    consume_all-entries ((entry_id, msg) ∷ msgs) done s =
        let first = to_acknowledge xack_raises ((entry_id, is_ok (handler msg s).0) ∷ []) in
        let rest = to_acknowledge xack_raises (fates handler msgs (handler msg s).1) in
        let sent = consume_all handler lib xack_raises now (map (entry_of lib) msgs) in
        ap (λ o. sent (consume handler xack_raises entry_id o (done, s)))
          (parse_message-fields_of now msg)
        ∙ ap sent (consume_returns entry_id msg done s)
        ∙ consume_all-entries msgs (done ++ first) (handler msg s).1
        ∙ ap (λ l. (l, state_after handler msgs (handler msg s).1))
            (append_assoc done first rest
              ∙ ap (λ l. done ++ l)
                  (to_acknowledge-cons (entry_id, is_ok (handler msg s).0)
                    (fates handler msgs (handler msg s).1)))

    fates-append :
        (ms ns : List (String × QueueMessage)) (s : S)
        → to_acknowledge xack_raises (fates handler (ms ++ ns) s)
          ≡ to_acknowledge xack_raises (fates handler ms s)
            ++ to_acknowledge xack_raises (fates handler ns (state_after handler ms s))
    unfolding fates state_after
    fates-append [] ns s = refl
    fates-append ((entry_id, msg) ∷ ms) ns s =
        let one : String × Bool = (entry_id, is_ok (handler msg s).0) in
        let s' = (handler msg s).1 in
        let more = fates handler ms s' in
        let later = to_acknowledge xack_raises (fates handler ns (state_after handler ms s')) in
        sym (to_acknowledge-cons one (fates handler (ms ++ ns) s'))
        ∙ ap (λ l. to_acknowledge xack_raises (one ∷ []) ++ l) (fates-append ms ns s')
        ∙ sym (
            append_assoc (to_acknowledge xack_raises (one ∷ [])) (to_acknowledge xack_raises more)
              later)
        ∙ ap (λ l. l ++ later) (to_acknowledge-cons one more)

    state_after-append :
        (ms ns : List (String × QueueMessage)) (s : S)
        → state_after handler (ms ++ ns) s ≡ state_after handler ns (state_after handler ms s)
    unfolding state_after
    state_after-append [] ns s = refl
    state_after-append ((entry_id, msg) ∷ ms) ns s = state_after-append ms ns (handler msg s).1

    -- The replies hold the messages that the producer has written, and the text of a time is read back
    -- as that time. Until it is closed, the consumer hands each message to the handler as it was
    -- sent, one after the other. It acknowledges, in order, exactly those for which the handler
    -- returns and Redis takes the acknowledgement.
    pub subscribe_stream-fields_of :
        (replies : List (List (String × QueueMessage))) (done : List String) (s : S)
        → subscribe_stream handler lib xack_raises is_closed now
            (map (map (entry_of lib)) replies)
            (done, s)
          ≡ (
            done
                ++ to_acknowledge xack_raises
                    (fates handler (handed_over handler is_closed replies s) s),
            state_after handler (handed_over handler is_closed replies s) s,
          )
    unfolding subscribe_stream handed_over fates state_after
    subscribe_stream-fields_of [] done s = ap (λ l. (l, s)) (sym (append-nil done))
    subscribe_stream-fields_of (msgs ∷ replies) done s = elim (Bool-cases (is_closed s)) [
      | inl shut ↦ rw shut (ap (λ l. (l, s)) (sym (append-nil done)))
      | inr open' ↦ rw open' (
          let next = handed_over handler is_closed replies (state_after handler msgs s) in
          let left = to_acknowledge xack_raises (fates handler msgs s) in
          let right =
            to_acknowledge xack_raises (fates handler next (state_after handler msgs s)) in
          ap
            (subscribe_stream handler lib xack_raises is_closed now
              (map (map (entry_of lib)) replies))
            (consume_all-entries msgs done s)
          ∙ subscribe_stream-fields_of replies (done ++ left) (state_after handler msgs s)
          ∙ ap (λ l. (l, state_after handler next (state_after handler msgs s)))
              (append_assoc done left right ∙ ap (λ l. done ++ l) (sym (fates-append msgs next s)))
          ∙ ap (λ t. (done ++ to_acknowledge xack_raises (fates handler (msgs ++ next) s), t))
              (sym (state_after-append msgs next s)))
    ]
