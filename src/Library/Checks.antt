-- ===== src/Library/Checks.antt =====
-- services/downloader.py: the check of the URL, and the classification of yt-dlp's messages.
use mix_saving_bot.Common.{
  String, ◌&&◌, ◌||◌, Option, none, some, [], ◌∷◌, if◌then◌else◌, ◌==◌, string_eq, nat_eq,
}
use mix_saving_bot.Common.Exec.{Result, ok, raised}
use mix_saving_bot.Text.{strip, lower, contains, contains_any, elem}
use mix_saving_bot.Sanitize.{UrlLibrary}
use mix_saving_bot.Engine.Errors.{
  Category, Error, mapped, download_error, value_error, invalid_url, private_content, geo_blocked,
  RawError, message_of,
}
use Prim.Native.String.{◌++◌ as ◌+s◌}

unfoldable pub validate_http_url : UrlLibrary → String → Result Error (Unit {0})
validate_http_url lib url =
    let trimmed = strip url in
    if url == ""
    then raised (mapped invalid_url "URL is empty")
    else if trimmed == ""
    then raised (mapped invalid_url "URL is whitespace only")
    else elim (lib.urlparse trimmed) [
      | none ↦ raised value_error
      | some parsed ↦
          if elem parsed.scheme ("http" ∷ "https" ∷ [])
          then if parsed.netloc == "" then raised (mapped invalid_url "URL has no host") else ok tt
          else raised (
              mapped invalid_url
                ("URL must use http or https scheme, got " +s lib.repr parsed.scheme))
    ]

unfoldable pub classify_message : String → Option Category
classify_message msg =
    let low = lower msg in
    if contains_any
        ("not available in your country" ∷ "not made this video available in your country"
          ∷ "country availability" ∷ "blocked in your country" ∷ "geo-restricted" ∷ "georestricted"
          ∷ [])
        low
      || (contains "geo" low && contains "restrict" low)
    then some geo_blocked
    else if contains_any
        ("this is a private video" ∷ "private video" ∷ "sign in to confirm" ∷ "login required"
          ∷ "requires authentication" ∷ "age-gated" ∷ "age verification" ∷ "copyright"
          ∷ "removed by the uploader" ∷ "no longer available" ∷ [])
        low
    then some private_content
    else if contains_any
        ("unsupported url" ∷ "no suitable extractor" ∷ "unable to extract" ∷ "invalid argument"
          ∷ [])
        low
    then some invalid_url
    else none

unfoldable pub mapped_error : RawError → Error
unfolding classify_message
mapped_error exc = elim (classify_message (message_of exc)) [
  | some category ↦ mapped category (message_of exc)
  | none ↦ download_error (message_of exc)
]
