-- ===== src/Bot/Notices.antt =====
-- bot/notifier.py: who hears of a job, and what is sent as a document.
use mix_saving_bot.Common.{ℕ, ◌≤◌, String, ◌≡◌, refl, Option, none, some, List, [], ◌∷◌, arith}
use mix_saving_bot.Contracts.{
  JobOutputRef, JobRecord, Status, succeeded, failed, queued, running, canceled, OutputKind,
}
use mix_saving_bot.Bot.Notifier.{
  send_output, content_of, send_outputs, text_message, max_document_bytes, FileLibrary, Message,
  Content, document, send_file, notify_job_update,
}

-- the path of a document
abbrev pub content_path : Content → Option String
content_path (text_message s) = none
content_path (document path name) = some path

abbrev pub document_path : Option Message → Option String
document_path none = none
document_path (some m) = content_path m.content

-- the job has succeeded, and the file is there and has at most 49 MiB
pub record IsFit (lib : FileLibrary) (job : JobRecord) (path : String) : Type 0 where
  pub size : ℕ
  pub is_done : job.status ≡ succeeded
  pub is_there : lib.size_of path ≡ some size
  pub within : size ≤ max_document_bytes

module _ (lib : FileLibrary) (job : JobRecord) (path : String) where
  send_file-IsFit :
      (primary : JobOutputRef) (o : Option ℕ)
      → job.status ≡ succeeded
      → lib.size_of primary.value ≡ o
      → content_path (send_file lib job primary o) ≡ some path
      → IsFit lib job path
  unfolding send_file
  send_file-IsFit primary none d e h = cc
  send_file-IsFit primary (some n) d e h = record {
    size = n;
    is_done = d;
    is_there = ground (arith, e, h);
    within = ground (arith, e, h);
  }

  send_output-IsFit :
      (primary : JobOutputRef) (kind : OutputKind)
      → job.status ≡ succeeded
      → content_path (send_output lib job primary kind) ≡ some path
      → IsFit lib job path
  send_output-IsFit primary OutputKind.local_path d h =
      send_file-IsFit primary (lib.size_of primary.value) d refl h
  send_output-IsFit primary OutputKind.telegram_file_id d h = cc
  send_output-IsFit primary OutputKind.cache_key d h = cc

  send_outputs-IsFit :
      (o : Option (List JobOutputRef))
      → job.status ≡ succeeded
      → content_path (send_outputs lib job o) ≡ some path
      → IsFit lib job path
  send_outputs-IsFit none d h = cc
  send_outputs-IsFit (some []) d h = cc
  send_outputs-IsFit (some (primary ∷ rest)) d h = send_output-IsFit primary primary.kind d h

  content_of-IsFit :
      (s : Status)
      → job.status ≡ s
      → document_path (elim (content_of lib job s) [
        | none ↦ none
        | some c ↦ some (record {
          chat_id = job.request.chat.chat_id;
          reply_to_message_id = job.request.chat.reply_to_message_id;
          content = c;
        })
      ])
        ≡ some path
      → IsFit lib job path
  content_of-IsFit succeeded d h = send_outputs-IsFit job.outputs d h
  content_of-IsFit failed d h = cc
  content_of-IsFit queued d h = cc
  content_of-IsFit running d h = cc
  content_of-IsFit canceled d h = cc

  -- The notifier uploads a document only for a job that has succeeded, and only a file that is there
  -- and has at most 49 MiB.
  pub notify_job_update-IsFit :
      document_path (notify_job_update lib job) ≡ some path → IsFit lib job path
  unfolding notify_job_update
  notify_job_update-IsFit h = content_of-IsFit job.status refl h
