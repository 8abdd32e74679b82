-- ===== src/Queue/Types.antt =====
-- services/types.py. Job ids are fresh UUIDs, so an object `Job` is known by its id; the one field
-- that is written later, `attempts`, is kept by the queue manager under that id.
use mix_saving_bot.Common.{ℕ, String, Bool, string_eq, nat_eq}
use mix_saving_bot.Common.Dict.{Dict}
use mix_saving_bot.Common.Json.{Fields}

pub data JobStatus : Type 0 where
  pending processing completed failed rejected_duplicate skipped : JobStatus

-- the values in a payload or a detail
pub data Value : Type 0 where
  text : String → Value
  number : ℕ → Value
  flag : Bool → Value
  -- an object that was read from a JSON text
  body : Fields → Value

pub record Job : Type 0 where
  pub id : String
  pub kind : String
  pub payload : Dict String Value
  pub created_at : ℕ
  pub max_attempts : ℕ
  pub retry_on_failure : Bool

pub record TaskResult : Type 0 where
  pub job_id : String
  pub status : JobStatus
  pub message : String
  pub detail : Dict String Value
