-- ===== src/Runner/Consumer.antt =====
-- services/queue/memory_queue.py: `MemoryQueueConsumer.subscribe`, on the messages that arrive, in their
-- order. `closed n` is what the test of `_closed` finds after n messages.
use mix_saving_bot.Common.{
  ℕ, suc, ◌+◌, ◌≡◌, refl, Bool, List, [], ◌∷◌, arith, if◌then◌else◌, length,
}
use mix_saving_bot.Common.Exec.{Exec, ok, raised}
use mix_saving_bot.Contracts.{QueueMessage}

-- The loop returns when it finds the consumer closed, ends with an exception of the handler, or waits
-- in `get` for a message that does not arrive.
pub data LoopState (X : Type 0) : Type 0 where
  returned waits : LoopState X
  raises : X → LoopState X

module _ {X S : Type 0} (closed : ℕ → Bool) (handler : QueueMessage → Exec X S (Unit {0})) where
  -- where the loop is in the end, with the messages that are still there, and the calls of `task_done`
  unfoldable pub subscribe : List QueueMessage → ℕ → S → LoopState X × (S × (List QueueMessage × ℕ))
  subscribe [] tasks s = (if closed tasks then returned else waits, (s, ([], tasks)))
  subscribe (msg ∷ rest) tasks s =
      let (r, s') = handler msg s in
      let more = subscribe rest (suc tasks) s' in
      if closed tasks
      then (returned, (s, (msg ∷ rest, tasks)))
      else elim r [ ok _ ↦ more | raised x ↦ (raises x, (s', (rest, suc tasks))) ]

  -- Every message is settled or still there: the calls of `task_done` and the messages that are left
  -- are together as many as the messages that there were, however the loop ends.
  subscribe_settles :
      (msgs : List QueueMessage) (tasks : ℕ) (s : S)
      → (subscribe msgs tasks s).1.1.1 + length (subscribe msgs tasks s).1.1.0 ≡ tasks + length msgs
  unfolding subscribe
  subscribe_settles [] tasks s = refl
  subscribe_settles (msg ∷ rest) tasks s =
      ground (arith, subscribe_settles rest (suc tasks) (handler msg s).1)
