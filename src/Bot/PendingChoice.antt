-- ===== src/Bot/PendingChoice.antt =====
-- bot/pending_choice.py: `PendingChoiceStore`. A token is a fresh UUID, given to `create`.
use mix_saving_bot.Common.{
  ℕ, ◌+◌, String, not, ◌||◌, Option, none, some, [], ◌∷◌, ltb, if◌then◌else◌, ◌==◌, string_eq,
  nat_eq,
}
use mix_saving_bot.Common.Dict.{Dict, get, put, remove}
use mix_saving_bot.Contracts.{ℤ, int_eq}

pub record PendingChoice : Type 0 where
  pub user_id : ℤ
  pub url : String
  pub reply_to_message_id : ℤ

pub record Store : Type 0 where
  pub ttl : ℕ
  pub entries : Dict String (ℕ × PendingChoice)

abbrev pub init : ℕ → Store
init ttl = record { ttl = ttl; entries = [] }

unfoldable pub purge : ℕ → Dict String (ℕ × PendingChoice) → Dict String (ℕ × PendingChoice)
purge now [] = []
purge now ((token, (expires_at, choice)) ∷ d) =
    let rest = purge now d in
    if ltb expires_at now then rest else (token, (expires_at, choice)) ∷ rest

unfoldable pub create : String → ℕ → PendingChoice → Store → Store
unfolding purge
create token now choice s = record s {
  entries = put token (now + s.ttl, choice) (purge now s.entries);
}

-- the tests of `pop` on the entry that it took out
unfoldable pub check_row : ℕ → ℤ → Option (ℕ × PendingChoice) → Option PendingChoice
check_row now user none = none
check_row now user (some (expires_at, choice)) =
    if ltb expires_at now || not (choice.user_id == user) then none else some choice

unfoldable pub pop : String → ℕ → ℤ → Store → Option PendingChoice × Store
unfolding purge check_row
pop token now user s =
    let entries = purge now s.entries in
    (check_row now user (get token entries), record s { entries = remove token entries })
