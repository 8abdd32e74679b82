-- ===== src/Logging.antt =====
-- core/logging_setup.py and bot/middleware/logging_mw.py: what stands in a line of the log. Values are
-- of any type `V`; what `json.dumps` makes of a value, and `repr`, are parameters.
pub mod Lines
use mix_saving_bot.Common.{
  ℕ, Bool, true, false, ◌||◌, Option, none, some, List, [], ◌∷◌, ◌++◌, if◌then◌else◌, ◌==◌,
  string_eq, nat_eq,
}
use mix_saving_bot.Contracts.{ℤ}
use mix_saving_bot.Text.{prefix, elem}
use mix_saving_bot.Common.Dict.{Dict, get, put}
use mix_saving_bot.Common.Exec.{Result, ok, raised}
use Prim.Native.String.{String}
use Prim.Native.Char.{code}

-- what `json.dumps(value)` does: it returns, or raises
pub data Dumped : Type 0 where
  dumps_fine dumps_type_error dumps_value_error : Dumped

pub data Exn : Type 0 where
  value_error : Exn

-- a value of the payload
pub data Field (V : Type 0) : Type 0 where
  text : String → Field V
  value : V → Field V

-- a `logging.LogRecord`: its message and traceback are formatted by the library
pub record LogRecord (V : Type 0) : Type 0 where
  pub levelname : String
  pub name : String
  pub message : String
  pub exc_info : Option String
  -- record.__dict__
  pub attributes : Dict String V

abbrev pub reserved_names : List String
reserved_names =
    "name" ∷ "msg" ∷ "args" ∷ "created" ∷ "filename" ∷ "funcName" ∷ "levelname" ∷ "levelno"
    ∷ "lineno" ∷ "module" ∷ "msecs" ∷ "pathname" ∷ "process" ∷ "processName" ∷ "relativeCreated"
    ∷ "stack_info" ∷ "exc_info" ∷ "exc_text" ∷ "thread" ∷ "threadName" ∷ "taskName" ∷ []

-- key.startswith("_")
abbrev pub starts_underscore : String → Bool
starts_underscore String.[] = false
starts_underscore (String.◌∷◌ c s) = code c == 95

unfoldable pub is_skipped : String → Bool
is_skipped key = starts_underscore key || elem key reserved_names

module _ {V : Type 0} where
  unfoldable pub base_payload : String → LogRecord V → Dict String (Field V)
  base_payload ts r =
      let payload : Dict String (Field V) =
        ("ts", text ts)
        ∷ ("level", text r.levelname)
        ∷ ("logger", text r.name)
        ∷ ("msg", text r.message)
        ∷ [] in
      elim r.exc_info [ none ↦ payload | some tb ↦ put "exc_info" (text tb) payload ]

  module _ (dumps : V → Dumped) (repr : V → String) where
    -- payload[key] = value, or its `repr` after a `TypeError`
    unfoldable pub shown : V → Result Exn (Field V)
    shown v = elim (dumps v) [
      | dumps_fine ↦ ok (value v)
      | dumps_type_error ↦ ok (text (repr v))
      | dumps_value_error ↦ raised value_error
    ]

    -- `key in payload`
    abbrev pub is_there : Option (Field V) → Bool
    is_there none = false
    is_there (some f) = true

    -- one round of the loop
    unfoldable pub add_attribute :
        String → V → Dict String (Field V) → Result Exn (Dict String (Field V))
    unfolding shown
    add_attribute key v payload =
        if is_skipped key || is_there (get key payload)
        then ok payload
        else elim (shown v) [ ok f ↦ ok (put key f payload) | raised x ↦ raised x ]

    unfoldable pub add_attributes :
        Dict String V → Dict String (Field V) → Result Exn (Dict String (Field V))
    unfolding add_attribute
    add_attributes [] payload = ok payload
    add_attributes ((key, v) ∷ rest) payload = elim (add_attribute key v payload) [
      | ok next ↦ add_attributes rest next
      | raised x ↦ raised x
    ]

    -- `JsonFormatter.format`, up to `json.dumps` of the payload
    unfoldable pub format : String → LogRecord V → Result Exn (Dict String (Field V))
    unfolding base_payload add_attributes
    format ts r = add_attributes r.attributes (base_payload ts r)

-- `setup_json_logging`: the root logger has one handler then, whatever was there before
pub record RootLogger (H : Type 0) : Type 0 where
  pub handlers : List H
  pub level : ℕ

abbrev pub setup_json_logging : {H : Type 0} → H → ℕ → RootLogger H → RootLogger H
setup_json_logging handler level root = record { handlers = handler ∷ []; level = level }

-- what an update has that the middleware logs
pub record Update : Type 0 where
  pub event : String
  pub from_user_id : Option ℤ
  pub chat_id : Option ℤ
  -- the `data` of a callback, if it is a text
  pub callback_data : Option String

pub data Extra : Type 0 where
  name : String → Extra
  number : ℤ → Extra

abbrev number_field : String → Option ℤ → Dict String Extra
number_field key none = []
number_field key (some n) = (key, number n) ∷ []

abbrev prefix_field : Option String → Dict String Extra
prefix_field none = []
prefix_field (some s) = ("telegram_callback_data_prefix", name (prefix 48 s)) ∷ []

-- the extra fields of `UpdateLoggingMiddleware`
abbrev pub update_extra : Update → Dict String Extra
update_extra u =
    ("event", name u.event)
    ∷ (number_field "telegram_user_id" u.from_user_id
        ++ (number_field "telegram_chat_id" u.chat_id ++ prefix_field u.callback_data))
