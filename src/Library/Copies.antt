-- ===== src/Library/Copies.antt =====
-- services/downloader.py and downloader/_sync_engine.py: the checks and searches side by side.
use mix_saving_bot.Common.{
  String, ◌≡◌, refl, ap, ◌∙◌, inl, inr, false, Option, none, some, List, [], ◌∷◌, if◌then◌else◌,
  Bool-cases, string_eq, nat_eq,
}
use mix_saving_bot.Common.Exec.{Result, ok, raised}
use mix_saving_bot.Common.Dict.{get}
use mix_saving_bot.Sanitize.{UrlLibrary}
use mix_saving_bot.Engine.Files.{Files, Entry, Info, some_text}
use mix_saving_bot.Engine.Errors.{
  Category, Error, RawError, error_for, message_of, is_geo, mapped, download_error,
  validate_http_url as engine_validate, classify_message as engine_classify,
  mapped_error as engine_mapped,
}
use mix_saving_bot.Engine.Options.{
  Opts, Environ, set_text, put_word, put_words, cookie_file, build_common_ydl_opts as engine_opts,
  default_ytdlp_config_path as engine_config_path,
}
use mix_saving_bot.Engine.Output.{
  slim_keys, whole_ones, by_id, keep, first_whole as engine_first, slim_from as engine_slim_from,
  slim_metadata as engine_slim, resolve_output_path as engine_resolve,
}
use mix_saving_bot.Engine.Download.{located_audio, located_video}
use mix_saving_bot.Library.Checks.{validate_http_url, classify_message, mapped_error}
use mix_saving_bot.Library.Options.{
  build_common_ydl_opts, with_locations, with_ffmpeg, with_cookies, common_opts, slim_from,
  slim_metadata, first_whole, candidates, by_pattern, resolve_output_path,
}
use mix_saving_bot.Library.Download.{checked_audio, checked_video, DownloadResult, closing}

pub validate_agrees :
    (lib : UrlLibrary) (url : String) → validate_http_url lib url ≡ engine_validate lib url
unfolding validate_http_url engine_validate
validate_agrees lib url = refl

pub category_agrees :
    (o : Option Category) (msg : String)
    → (elim o [ some category ↦ mapped category msg | none ↦ download_error msg ]) ≡ error_for o msg
category_agrees none msg = refl
category_agrees (some category) msg = refl

pub mapped_error_agrees : (exc : RawError) → mapped_error exc ≡ engine_mapped exc
unfolding mapped_error engine_mapped classify_message engine_classify is_geo
mapped_error_agrees exc = category_agrees (engine_classify (message_of exc)) (message_of exc)

pub slim_from_agrees : (ks : List String) (i : Info) → slim_from ks i ≡ engine_slim_from ks i
unfolding slim_from engine_slim_from
slim_from_agrees [] i = refl
slim_from_agrees (k ∷ ks) i = ap (keep k (get k i)) (slim_from_agrees ks i)

pub slim_agrees : (i : Info) → slim_metadata i ≡ engine_slim i
unfolding slim_metadata engine_slim
slim_agrees i = slim_from_agrees slim_keys i

module _ (fs : Files) where
  pub first_agrees : (es : List Entry) → first_whole fs es ≡ engine_first fs es
  unfolding first_whole engine_first
  first_agrees [] = refl
  first_agrees (e ∷ es) = rw (first_agrees es) refl

  pub candidates_agree : (es : List Entry) → candidates fs es ≡ whole_ones fs es
  unfolding candidates whole_ones
  candidates_agree [] = refl
  candidates_agree (e ∷ es) = rw (candidates_agree es) refl

  pub by_pattern_agrees :
      (re_escape : String → String) (d : String) (o : Option String)
      → by_pattern fs re_escape d o ≡ by_id fs re_escape d o
  unfolding by_pattern by_id
  by_pattern_agrees re_escape d none = refl
  by_pattern_agrees re_escape d (some p) = first_agrees _

  pub resolve_agrees :
      (re_escape : String → String) (d : String) (i : Info)
      → resolve_output_path fs re_escape d i ≡ engine_resolve fs re_escape d i
  unfolding resolve_output_path engine_resolve
  resolve_agrees re_escape d i =
      rw (by_pattern_agrees re_escape d (some_text (get "id" i)), candidates_agree (fs.iterdir d))
        refl

module _ (env : Environ) where
  pub locations_agree :
      (cfg : String) (opts : Opts)
      → with_locations env cfg opts
        ≡ put_words "config_locations" (if env.is_file cfg then cfg ∷ [] else []) opts
  locations_agree cfg opts = elim (Bool-cases (env.is_file cfg)) [
    | inl there ↦ rw there refl
    | inr gone ↦ rw gone refl
  ]

  pub ffmpeg_agrees :
      (o : Option String) (opts : Opts) → with_ffmpeg o opts ≡ put_word "ffmpeg_location" o opts
  ffmpeg_agrees none opts = refl
  ffmpeg_agrees (some path) opts = refl

  pub cookies_agree :
      (o : Option String) (opts : Opts)
      → with_cookies env o opts
        ≡ put_word "cookiefile"
            (elim o [ none ↦ none | some path ↦ if env.is_file path then some path else none ])
            opts
  cookies_agree none opts = refl
  cookies_agree (some path) opts = elim (Bool-cases (env.is_file path)) [
    | inl there ↦ rw there refl
    | inr gone ↦ rw gone refl
  ]

  pub opts_agree :
      (base config : String)
      → build_common_ydl_opts env base (some config) ≡ engine_opts env base (some config)
  unfolding build_common_ydl_opts engine_opts engine_config_path
  opts_agree base config =
      cookies_agree (set_text env.cookies_file) _
      ∙ ap (put_word "cookiefile" (cookie_file env)) (
          ffmpeg_agrees (set_text env.ffmpeg_location) _
          ∙ ap (put_word "ffmpeg_location" (set_text env.ffmpeg_location))
              (locations_agree config (common_opts base)))

-- what the engine returns, as this library's result
abbrev pub result_of : String → Result Error (String × Info) → Result Error DownloadResult
result_of base (ok (p, metadata)) = ok (record { path = p; work_dir = base; metadata = metadata })
result_of base (raised x) = raised x

pub closing_agrees :
    (base : String) (r : Result Error (String × Info)) (dirs : List String)
    → closing false base r dirs ≡ (result_of base r, dirs)
closing_agrees base (ok (p, metadata)) dirs = refl
closing_agrees base (raised x) dirs = refl

pub checked_video_agrees :
    (fs : Files) (i : Info) (o : Option String) → checked_video fs i o ≡ located_video fs i o
checked_video_agrees fs i none = refl
checked_video_agrees fs i (some p) = rw (slim_agrees i) refl

pub checked_audio_agrees :
    (fs : Files) (i : Info) (o : Option String) → checked_audio fs i o ≡ located_audio fs i o
checked_audio_agrees fs i none = refl
checked_audio_agrees fs i (some p) = rw (slim_agrees i) refl
