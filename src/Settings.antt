-- ===== src/Settings.antt =====
-- core/settings.py: `parse_allowed_hosts`. A value of the environment is a text, a set or a list of
-- texts, nothing, or of another type; JSON is a parameter. A set of hosts is a list.
pub mod Values
pub mod Checked
use mix_saving_bot.Text.{lower, strip}
use mix_saving_bot.Common.{Bool, false, List, [], ◌∷◌, if◌then◌else◌, ◌==◌, string_eq, nat_eq}
use Prim.Native.Char.{Char, code}
use Prim.Native.String.{String}
use mix_saving_bot.Common.Exec.{Result, ok, raised}

pub data Exn : Type 0 where
  json_error value_error type_error : Exn

pub data Value : Type 0 where
  frozen : List String → Value
  nothing : Value
  texts : List String → Value
  text : String → Value
  other : Value

-- what `json.loads` returns: a list, as the texts of its items, or something else
pub data Decoded : Type 0 where
  decode_error : Decoded
  items : List String → Decoded
  not_list : Decoded

abbrev pub default_allowed_hosts : List String
default_allowed_hosts =
    "www.youtube.com" ∷ "youtube.com" ∷ "youtu.be" ∷ "m.youtube.com" ∷ "www.instagram.com"
    ∷ "instagram.com" ∷ "www.tiktok.com" ∷ "tiktok.com" ∷ "vm.tiktok.com" ∷ "vt.tiktok.com"
    ∷ "www.facebook.com" ∷ "facebook.com" ∷ "m.facebook.com" ∷ "twitter.com" ∷ "x.com"
    ∷ "www.twitter.com" ∷ []

-- str(x).strip().lower() for x in value if str(x).strip()
unfoldable pub clean_hosts : List String → List String
clean_hosts [] = []
clean_hosts (x ∷ xs) =
    let rest = clean_hosts xs in
    let host = strip x in if host == "" then rest else lower host ∷ rest

-- a character before the parts of a text
abbrev pub join_first : Char → List String → List String
join_first c [] = String.◌∷◌ c String.[] ∷ []
join_first c (p ∷ ps) = String.◌∷◌ c p ∷ ps

-- s.split(",")
unfoldable pub split_commas : String → List String
split_commas String.[] = String.[] ∷ []
split_commas (String.◌∷◌ c s) =
    let rest = split_commas s in if code c == 44 then String.[] ∷ rest else join_first c rest

-- text.startswith("[")
abbrev pub starts_list : String → Bool
starts_list String.[] = false
starts_list (String.◌∷◌ c s) = code c == 91

abbrev pub of_json : Decoded → Result Exn (List String)
of_json decode_error = raised json_error
of_json (items l) = ok (clean_hosts l)
of_json not_list = raised value_error

unfoldable pub parse_allowed_hosts : (String → Decoded) → Value → Result Exn (List String)
unfolding clean_hosts split_commas
parse_allowed_hosts loads (frozen hosts) = ok hosts
parse_allowed_hosts loads nothing = ok []
parse_allowed_hosts loads (texts l) = ok (clean_hosts l)
parse_allowed_hosts loads (text s) =
    let trimmed = strip s in
    if trimmed == "*"
    then ok []
    else if trimmed == ""
    then ok default_allowed_hosts
    else if starts_list trimmed
    then of_json (loads trimmed)
    else ok (clean_hosts (split_commas trimmed))
parse_allowed_hosts loads other = raised type_error
