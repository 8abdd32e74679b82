-- ===== src/Logging/Lines.antt =====
-- core/logging_setup.py: which fields a line of the log has.
use mix_saving_bot.Common.{String, Bool, Option, none, some, if◌then◌else◌, string_eq, nat_eq}
use mix_saving_bot.Common.Dict.{Dict}
use mix_saving_bot.Logging.{dumps_fine, Field, text, value, Dumped}

module _ {V : Type 0} (dumps : V → Dumped) (repr : V → String) where
  -- an attribute as it is written
  abbrev pub written : Option V → Option (Field V)
  written none = none
  written (some v) = elim (dumps v) [ dumps_fine ↦ some (value v) | _ ↦ some (text (repr v)) ]

  -- a field of the payload wins over an attribute, and a skipped attribute is not written
  abbrev pub expected : Option (Field V) → Bool → Option V → Option (Field V)
  expected (some f) skipped o = some f
  expected none skipped o = if skipped then none else written o
