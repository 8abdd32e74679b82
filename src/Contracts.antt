-- ===== src/Contracts.antt =====
-- core/contracts/types.py and core/contracts/errors.py: the records that the components exchange.
-- A `NotRequired` key is an `Option`. Clock readings are numbers of ticks.
use mix_saving_bot.Common.{
  ℕ, String, ◌↔◌, Bool, true, false, Option, List, arith, Eq, ◌==◌, string_eq, nat_eq,
}
use mathlib.Core.Path.{◌≡◌}

-- Telegram ids are signed; `negsuc n` is -(n + 1).
pub data ℤ : Type 0 where
  pos : ℕ → ℤ
  negsuc : ℕ → ℤ

abbrev pub int_beq : ℤ → ℤ → Bool
int_beq (pos a) (pos b) = a == b
int_beq (negsuc a) (negsuc b) = a == b
int_beq _ _ = false

pub int_beq_iff : (a b : ℤ) → (int_beq a b ≡ true) ↔ (a ≡ b)
int_beq_iff (pos a) (pos b) = ground arith
int_beq_iff (negsuc a) (negsuc b) = ground arith
int_beq_iff (pos a) (negsuc b) = ground arith
int_beq_iff (negsuc a) (pos b) = ground arith

instance abbrev pub int_eq : Eq ℤ
int_eq = record { beq = int_beq; beq_iff = int_beq_iff }

pub data Status : Type 0 where
  queued running succeeded failed canceled : Status

pub record ChatContext : Type 0 where
  pub chat_id : ℤ
  pub user_id : ℤ
  pub locale : Option String
  pub reply_to_message_id : Option ℤ

pub record SubmitDownloadRequest : Type 0 where
  pub source_url : String
  pub correlation_id : String
  pub chat : ChatContext
  pub requested_format_id : Option String

pub data OutputKind : Type 0 where
  telegram_file_id local_path cache_key : OutputKind

pub record JobOutputRef : Type 0 where
  pub kind : OutputKind
  pub value : String
  pub mime_type : Option String
  pub byte_size : Option ℕ

pub record JobRecord : Type 0 where
  pub job_id : String
  pub status : Status
  pub request : SubmitDownloadRequest
  pub created_at_unix : ℕ
  pub updated_at_unix : ℕ
  pub error_code : Option String
  pub error_message_safe : Option String
  pub outputs : Option (List JobOutputRef)
  pub dedupe_key : Option String

pub record QueueMessage : Type 0 where
  pub job_id : String
  pub correlation_id : String
  pub enqueued_at_unix : ℕ

pub record CacheEntry : Type 0 where
  pub cache_key : String
  pub local_path : String
  pub byte_size : ℕ
  pub created_at_unix : ℕ
  pub content_hash : Option String

-- rec["status"] in ("succeeded", "failed", "canceled")
abbrev pub is_terminal : Status → Bool
is_terminal queued = false
is_terminal running = false
is_terminal _ = true

-- r["status"] in ("queued", "running")
abbrev pub is_active : Status → Bool
is_active queued = true
is_active running = true
is_active _ = false
