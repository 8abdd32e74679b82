-- ===== src/Bot/Notifier.antt =====
-- bot/notifier.py: `TelegramNotifier.notify_job_update`, as the message that it sends. The files on
-- disk, `Path.stem` and the digits of a number are parameters.
use mix_saving_bot.Common.{
  ℕ, ◌/◌, ◌||◌, Option, none, some, List, [], ◌∷◌, ltb, if◌then◌else◌, ◌==◌, string_eq, nat_eq,
}
use mix_saving_bot.Text.{lower, prefix, strip, elem}
use Prim.Native.Char.{code}
use mix_saving_bot.Text.{char_or}
use Prim.Native.String.{String, ◌++◌ as ◌+s◌}
use mix_saving_bot.Contracts.{OutputKind, JobOutputRef, ℤ, Status, JobRecord, succeeded, failed}

pub record FileLibrary : Type 0 where
  -- the size of a file; `none` where there is no file
  pub size_of : String → Option ℕ
  pub stem : String → String
  pub digits : ℕ → String

pub data Content : Type 0 where
  text_message : String → Content
  document : String → String → Content

pub record Message : Type 0 where
  pub chat_id : ℤ
  pub reply_to_message_id : Option ℤ
  pub content : Content

abbrev pub max_document_bytes : ℕ
max_document_bytes = 51380224

-- x or d
abbrev pub or_text : Option String → String → String
or_text none d = d
or_text (some s) d = if s == "" then d else s

-- the extension that `requested_format_id` stands for
abbrev pub format_ext : Option String → String
format_ext fmt =
    if elem (lower (strip (or_text fmt "video"))) ("audio" ∷ "mp3" ∷ "bestaudio" ∷ [])
    then ".mp3"
    else ".mp4"

abbrev pub extension : Option String → Option String → String
extension none fmt = format_ext fmt
extension (some mime) fmt =
    if mime == "audio/mpeg" then ".mp3" else if mime == "video/mp4" then ".mp4" else format_ext fmt

-- s.replace("/", "_").replace("\\", "_")
abbrev pub no_slashes : String → String
no_slashes String.[] = String.[]
no_slashes (String.◌∷◌ c s) =
    String.◌∷◌ (if code c == 47 || code c == 92 then char_or "_" 0 c else c) (no_slashes s)

-- both extensions have four characters, so the stem has at most 176
unfoldable pub outgoing_document_filename :
    FileLibrary → JobRecord → String → Option String → String
outgoing_document_filename lib job path mime_hint =
    let stem = no_slashes (strip (or_text (some (lib.stem path)) "media")) in
    prefix 176 stem +s extension mime_hint job.request.requested_format_id

-- an output that is a file on disk, by its size
unfoldable pub send_file : FileLibrary → JobRecord → JobOutputRef → Option ℕ → Content
unfolding outgoing_document_filename
send_file lib job primary none = text_message "Download finished but the file is missing."
send_file lib job primary (some size) =
    if ltb max_document_bytes size
    then text_message (
        "File is too large to send via Telegram Bot API ("
        +s (lib.digits (size / 1048576) +s " MiB). Try audio mode or a shorter video."))
    else document primary.value (outgoing_document_filename lib job primary.value primary.mime_type)

abbrev pub send_output : FileLibrary → JobRecord → JobOutputRef → OutputKind → Content
send_output lib job primary OutputKind.local_path =
    send_file lib job primary (lib.size_of primary.value)
send_output lib job primary _ = text_message ("Done: " +s primary.value)

abbrev pub send_outputs : FileLibrary → JobRecord → Option (List JobOutputRef) → Content
send_outputs lib job (some (primary ∷ _)) = send_output lib job primary primary.kind
send_outputs lib job _ = text_message "Done, but no file was attached."

abbrev pub content_of : FileLibrary → JobRecord → Status → Option Content
content_of lib job succeeded = some (send_outputs lib job job.outputs)
content_of lib job failed = some (text_message (or_text job.error_message_safe "Download failed."))
content_of lib job _ = none

unfoldable pub notify_job_update : FileLibrary → JobRecord → Option Message
unfolding send_file
notify_job_update lib job = elim (content_of lib job job.status) [
  | none ↦ none
  | some c ↦ some (record {
    chat_id = job.request.chat.chat_id;
    reply_to_message_id = job.request.chat.reply_to_message_id;
    content = c;
  })
]
