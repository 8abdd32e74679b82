-- ===== src/Jobs/Listing.antt =====
-- services/jobs/repository.py: what `list_active_for_chat` lists.
use mix_saving_bot.Common.{
  ℕ, ◌≤◌, ◌≡◌, refl, ◌∙◌, Bool, true, ◌&&◌, [], ◌∷◌, arith, ◌==◌, length, length-take-le, string_eq,
  nat_eq,
}
use mix_saving_bot.Common.Sorting.{all, is_desc, all-sort_desc, all-take, desc-take, sort_desc-desc}
use mix_saving_bot.Contracts.{ℤ, int_eq, JobRecord, is_active}
use mix_saving_bot.Jobs.Repository.{Repo, active_for_chat, sort_newest, list_active_for_chat}

-- a queued or running job of the chat
abbrev pub is_listed : ℤ → JobRecord → Bool
is_listed chat_id r = r.request.chat.chat_id == chat_id && is_active r.status

all-active_for_chat :
    (chat_id : ℤ) (repo : Repo) → all (is_listed chat_id) (active_for_chat chat_id repo) ≡ true
unfolding active_for_chat
all-active_for_chat chat_id [] = refl
all-active_for_chat chat_id ((k, r) ∷ rest) = ground (arith, all-active_for_chat chat_id rest)

-- The listing of a chat holds at most `limit` jobs, each of that chat and queued or running, and none
-- is older than one behind it.
list_active_for_chat_lem :
    (chat_id : ℤ) (limit : ℕ) (repo : Repo)
    → let out = list_active_for_chat chat_id limit repo in
      (length out ≤ limit)
      × (all (is_listed chat_id) out ≡ true)
      × (is_desc (λ r. r.created_at_unix) out ≡ true)
unfolding list_active_for_chat
list_active_for_chat_lem chat_id limit repo =
    let found = active_for_chat chat_id repo in
    let by_time : JobRecord → ℕ = λ r. r.created_at_unix in
    (
      length-take-le limit (sort_newest found),
      all-take by_time (is_listed chat_id) limit (sort_newest found)
          (all-sort_desc by_time (is_listed chat_id) found ∙ all-active_for_chat chat_id repo),
      desc-take by_time limit (sort_newest found) (sort_desc-desc by_time found),
    )
