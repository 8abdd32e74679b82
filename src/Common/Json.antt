-- ===== src/Common/Json.antt =====
-- What `json.loads` returns: an object has each of its keys once.
use Prim.Native.Nat.{ℕ}
use Prim.Native.String.{String}
use mathlib.Core.Bool.{Bool, true, false, not}
use mathlib.Core.Option.{Option, none, some}
use mix_saving_bot.Common.Tests.{if◌then◌else◌, ◌==◌, string_eq, nat_eq}

mutual
  pub data Json : Type 0 where
    null : Json
    text : String → Json
    number : ℕ → Json
    flag : Bool → Json
    object : Fields → Json
    -- a list or a fraction, by its `repr` and its truth value
    other : String → Bool → Json

  pub data Fields : Type 0 where
    end : Fields
    field : String → Json → Fields → Fields

-- d.get(key)
unfoldable pub get_field : String → Fields → Json
get_field key end = null
get_field key (field k j d) = let rest = get_field key d in if k == key then j else rest

-- bool(j)
abbrev pub is_true : Json → Bool
is_true null = false
is_true (text s) = not (s == "")
is_true (number n) = not (n == 0)
is_true (flag b) = b
is_true (object end) = false
is_true (object (field k j d)) = true
is_true (other s b) = b

-- a or b
abbrev pub or_json : Json → Json → Json
or_json a b = if is_true a then a else b

-- the text, if it is one
abbrev pub text_of : Json → Option String
text_of (text s) = some s
text_of _ = none
