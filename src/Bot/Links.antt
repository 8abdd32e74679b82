-- ===== src/Bot/Links.antt =====
-- bot/routers/download.py and bot/keyboards.py: how the texts of messages and of buttons are read.
use mix_saving_bot.Common.{
  ℕ, Bool, false, not, ◌&&◌, ◌||◌, Option, none, some, if◌then◌else◌, ◌==◌, string_eq, nat_eq,
}
use mix_saving_bot.Text.{is_space, lstrip, lower, starts_with, contains, drop_chars, prefix}
use Prim.Native.Char.{Char, code}
use Prim.Native.String.{String, ◌++◌ as ◌+s◌}

-- the text behind the first run of characters that are no white space
unfoldable pub skip_word : String → String
skip_word String.[] = String.[]
skip_word (String.◌∷◌ c s) = if is_space c then String.◌∷◌ c s else skip_word s

abbrev pub nonempty : String → Option String
nonempty s = if s == "" then none else some s

-- text.split(maxsplit=1)[1], if there is one
unfoldable pub second_part : String → Option String
unfolding lstrip skip_word
second_part text = nonempty (lstrip (skip_word (lstrip text)))

-- a character that `_URL_RE` stops at
abbrev pub ends_url : Char → Bool
ends_url c = is_space c || code c == 60 || code c == 62 || code c == 34

unfoldable pub take_url : String → String
take_url String.[] = String.[]
take_url (String.◌∷◌ c s) =
    let rest = take_url s in if ends_url c then String.[] else String.◌∷◌ c rest

-- the first `n` characters, if the match goes on behind them
abbrev pub url_from : ℕ → String → Option String
url_from n s =
    let rest = take_url (drop_chars n s) in if rest == "" then none else some (prefix n s +s rest)

-- _URL_RE at the start of a text
unfoldable pub url_at : String → Option String
unfolding take_url lower
url_at s =
    if starts_with "http://" (lower s)
    then url_from 7 s
    else if starts_with "https://" (lower s)
    then url_from 8 s
    else none

-- _URL_RE.search(raw).group(0)
unfoldable pub search_url : String → Option String
unfolding url_at
search_url String.[] = none
search_url (String.◌∷◌ c s) =
    let rest = search_url s in elim (url_at (String.◌∷◌ c s)) [ none ↦ rest | some url ↦ some url ]

abbrev pub is_closing : Char → Bool
is_closing c = let n = code c in n == 41 || n == 46 || n == 44 || n == 93 || n == 125

abbrev pub keep_open : Char → String → String
keep_open c String.[] = if is_closing c then String.[] else String.◌∷◌ c String.[]
keep_open c (String.◌∷◌ d r) = String.◌∷◌ c (String.◌∷◌ d r)

-- s.rstrip(").,]}")
unfoldable pub rstrip_closing : String → String
rstrip_closing String.[] = String.[]
rstrip_closing (String.◌∷◌ c s) = keep_open c (rstrip_closing s)

-- the link of a message
unfoldable pub link_of : String → Option String
unfolding search_url rstrip_closing
link_of raw = elim (search_url raw) [ none ↦ none | some url ↦ some (rstrip_closing url) ]

-- the filter of `implicit_url_prompt`
unfoldable pub is_prompt : Option String → Bool
unfolding contains
is_prompt none = false
is_prompt (some text) =
    not (text == "")
    && not (starts_with "/" text)
    && (contains "http://" text || contains "https://" text)

-- build_download_choice_keyboard(token), the data of a button
abbrev pub callback_data : String → String → String
callback_data kind token = "dl" +s (":" +s (kind +s (":" +s token)))

-- s.split(":", 1)
unfoldable pub cut : String → Option (String × String)
cut String.[] = none
cut (String.◌∷◌ c s) =
    let rest = cut s in
    if code c == 58
    then some (String.[], s)
    else elim rest [ none ↦ none | some parts ↦ some (String.◌∷◌ c parts.0, parts.1) ]

-- the parts of data.split(":", 2), if they are three and the first one is "dl"
abbrev pub check_parts : String → Option (String × String) → Option (String × String)
check_parts head none = none
check_parts head (some (kind, token)) = if head == "dl" then some (kind, token) else none

abbrev pub cut_rest : Option (String × String) → Option (String × String)
cut_rest none = none
cut_rest (some (head, rest)) = check_parts head (cut rest)

unfoldable pub parse_data : String → Option (String × String)
unfolding cut
parse_data button = cut_rest (cut button)
