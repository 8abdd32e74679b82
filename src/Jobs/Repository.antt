-- ===== src/Jobs/Repository.antt =====
-- services/jobs/model.py and services/jobs/repository.py. The clock and `uuid4` are arguments.
-- `save` stores the record, and `get` hands out a copy, so a record is never changed in place.
use mix_saving_bot.Common.{
  ℕ, String, Bool, false, ◌&&◌, Option, none, some, List, [], ◌∷◌, if◌then◌else◌, ◌==◌, take,
  string_eq, nat_eq,
}
use mix_saving_bot.Common.Sorting.{sort_desc}
use mix_saving_bot.Common.Dict.{Dict, put}
use mix_saving_bot.Contracts.{ℤ, int_eq, Status, JobRecord, SubmitDownloadRequest, is_active}

-- make_job_record
abbrev pub make_job_record : ℕ → String → Status → SubmitDownloadRequest → Option String → JobRecord
make_job_record now job_id status request dedupe_key = record {
  job_id = job_id;
  status = status;
  request = request;
  created_at_unix = now;
  updated_at_unix = now;
  error_code = none;
  error_message_safe = none;
  outputs = none;
  dedupe_key = dedupe_key;
}

abbrev pub Repo : Type 0
Repo = Dict String JobRecord

-- r.get("dedupe_key") == dedupe_key
abbrev pub has_dedupe : String → JobRecord → Bool
has_dedupe key r = elim r.dedupe_key [ none ↦ false | some k ↦ k == key ]

unfoldable pub save : JobRecord → Repo → Repo
save rec repo = put rec.job_id rec repo

unfoldable pub find_active_by_dedupe : String → Repo → Option JobRecord
find_active_by_dedupe key [] = none
find_active_by_dedupe key ((_, r) ∷ rest) =
    if has_dedupe key r && is_active r.status then some r else find_active_by_dedupe key rest

unfoldable pub active_for_chat : ℤ → Repo → List JobRecord
active_for_chat chat_id [] = []
active_for_chat chat_id ((_, r) ∷ rest) =
    let out = active_for_chat chat_id rest in
    if r.request.chat.chat_id == chat_id && is_active r.status then r ∷ out else out

-- out.sort(key=created_at_unix, reverse=True)
abbrev pub sort_newest : List JobRecord → List JobRecord
sort_newest out = sort_desc (λ r. r.created_at_unix) out

unfoldable pub list_active_for_chat : ℤ → ℕ → Repo → List JobRecord
unfolding active_for_chat
list_active_for_chat chat_id limit repo = take limit (sort_newest (active_for_chat chat_id repo))
