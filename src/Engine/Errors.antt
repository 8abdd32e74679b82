-- ===== src/Engine/Errors.antt =====
-- downloader/_sync_engine.py: the exceptions, and how a message of yt-dlp is classified.
use mix_saving_bot.Common.{
  String, Bool, ◌&&◌, ◌||◌, Option, none, some, List, [], ◌∷◌, if◌then◌else◌, ◌==◌, string_eq,
  nat_eq,
}
use Prim.Native.String.{◌++◌ as ◌+s◌}
use mix_saving_bot.Common.Exec.{Result, ok, raised}
use mix_saving_bot.Text.{strip, lower, contains, contains_any, elem, or_else}
use mix_saving_bot.Sanitize.{UrlLibrary}

-- the subclasses of `YtDlpDownloadError`, and the class itself
pub data Category : Type 0 where
  invalid_url private_content geo_blocked : Category

pub data Error : Type 0 where
  mapped : Category → String → Error
  download_error : String → Error
  value_error os_error assertion_error crash : Error

unfoldable pub validate_http_url : UrlLibrary → String → Result Error (Unit {0})
validate_http_url lib url =
    let trimmed = strip url in
    if url == ""
    then raised (mapped invalid_url "URL is empty")
    else if trimmed == ""
    then raised (mapped invalid_url "URL is whitespace only")
    else elim (lib.urlparse trimmed) [
      | none ↦ raised value_error
      | some parsed ↦
          if elem parsed.scheme ("http" ∷ "https" ∷ [])
          then if parsed.netloc == "" then raised (mapped invalid_url "URL has no host") else ok tt
          else raised (
              mapped invalid_url
                ("URL must use http or https scheme, got " +s lib.repr parsed.scheme))
    ]

abbrev pub geo_phrases : List String
geo_phrases =
    "not available in your country" ∷ "not made this video available in your country"
    ∷ "country availability" ∷ "blocked in your country" ∷ "geo-restricted" ∷ "georestricted" ∷ []

abbrev pub private_phrases : List String
private_phrases =
    "this is a private video" ∷ "private video" ∷ "sign in to confirm" ∷ "login required"
    ∷ "requires authentication" ∷ "age-gated" ∷ "age verification" ∷ "copyright"
    ∷ "removed by the uploader" ∷ "no longer available" ∷ []

abbrev pub invalid_phrases : List String
invalid_phrases =
    "unsupported url" ∷ "no suitable extractor" ∷ "unable to extract" ∷ "invalid argument" ∷ []

-- the tests on the message in lower case
unfoldable pub is_geo : String → Bool
is_geo low = contains_any geo_phrases low || (contains "geo" low && contains "restrict" low)

unfoldable pub classify_message : String → Option Category
unfolding is_geo
classify_message msg =
    let low = lower msg in
    if is_geo low
    then some geo_blocked
    else if contains_any private_phrases low
    then some private_content
    else if contains_any invalid_phrases low
    then some invalid_url
    else none

-- an exception of yt-dlp: str(exc), its `msg`, and repr(exc)
pub record RawError : Type 0 where
  pub str : String
  pub msg : String
  pub repr : String

abbrev pub message_of : RawError → String
message_of exc = or_else exc.str (or_else exc.msg exc.repr)

-- raise category(msg), or the class itself
abbrev pub error_for : Option Category → String → Error
error_for (some category) msg = mapped category msg
error_for none msg = download_error msg

unfoldable pub mapped_error : RawError → Error
unfolding classify_message
mapped_error exc = error_for (classify_message (message_of exc)) (message_of exc)

module _ {A B : Type 0} where
  infixl 5 ◌>>=◌
  abbrev pub ◌>>=◌ : Result Error A → (A → Result Error B) → Result Error B
  ok a >>= f = f a
  raised x >>= f = raised x

module _ {B : Type 0} where
  infixl 5 ◌>>◌
  abbrev pub ◌>>◌ : Result Error (Unit {0}) → Result Error B → Result Error B
  m >> k = m >>= λ _. k
