-- ===== src/Library/Agreement.antt =====
-- services/downloader.py and downloader/_sync_engine.py: the two downloads side by side.
use mix_saving_bot.Common.{
  String, ◌≡◌, refl, sym, ap, ◌∙◌, Bool, true, false, some, List, if◌then◌else◌,
}
use mix_saving_bot.Library.Copies.{
  validate_agrees, mapped_error_agrees, resolve_agrees, opts_agree, result_of, closing_agrees,
  checked_video_agrees, checked_audio_agrees,
}
use mix_saving_bot.Text.{strip}
use mix_saving_bot.Common.Exec.{Result, ok, raised}
use mix_saving_bot.Engine.Files.{Info}
use mix_saving_bot.Engine.Errors.{
  ◌>>◌, ◌>>=◌, os_error, Error, validate_http_url as engine_validate,
}
use mix_saving_bot.Engine.Options.{update, Opts, build_common_ydl_opts as engine_opts}
use mix_saving_bot.Engine.Output.{resolve_output_path as engine_resolve, only_one, or_next}
use mix_saving_bot.Engine.Download.{
  audio_file, download_audio_sync, run_download, download_video_sync, located_audio, located_video,
  Engine, Extracted, info, not_dict, raw, other_error, checked, video_opts as engine_video_opts,
  audio_opts as engine_audio_opts, real_files,
}
use mix_saving_bot.Library.Checks.{validate_http_url}
use mix_saving_bot.Library.Options.{build_common_ydl_opts}
use mix_saving_bot.Library.Download.{
  locate_audio, download_audio, Ran, locate_video, download_video, checked_audio, checked_video,
  after_check, settle_download, closing,
}

module _ (base : String) (locate found : Info → Result Error (String × Info))
    (same : (i : Info) → locate i ≡ found i) (dirs : List String) where
  settle_agrees :
      (x : Extracted)
      → settle_download false base locate x dirs ≡ (result_of base (checked x >>= found), dirs)
  unfolding settle_download
  settle_agrees (info i) =
      ap (λ r. closing false base r dirs) (same i) ∙ closing_agrees base (found i) dirs
  settle_agrees not_dict = refl
  settle_agrees (raw exc) = rw (mapped_error_agrees exc) refl
  settle_agrees other_error = refl

  made_agrees :
      (makes : Bool) (x : Extracted)
      → (if makes then settle_download false base locate x dirs else (raised os_error, dirs)) ≡ (
        result_of base ((if makes then ok tt else raised os_error) >> (checked x >>= found)),
        dirs,
      )
  made_agrees true x = settle_agrees x
  made_agrees false x = refl

  run_agrees :
      (v : Result Error (Unit {0})) (makes : Bool) (x : Extracted)
      → after_check v
          (if makes then settle_download false base locate x dirs else (raised os_error, dirs))
          dirs
        ≡ (
          result_of base
              (v >> ((if makes then ok tt else raised os_error) >> (checked x >>= found))),
          dirs,
        )
  run_agrees (ok u) makes x = made_agrees makes x
  run_agrees (raised e) makes x = refl

-- what the engine's steps give, as this library's result
abbrev engine_run :
    String
    → (Info → Result Error (String × Info))
    → List String
    → Result Error (Unit {0})
    → Bool
    → Extracted
    → Ran
engine_run base found dirs v makes x = (
  result_of base (v >> ((if makes then ok tt else raised os_error) >> (checked x >>= found))),
  dirs,
)

module _ (e : Engine) (url work_dir config mkdtemp : String) (dirs : List String)
    (trimmed : strip url ≡ url) where
  -- the two calls of yt-dlp
  extract_agrees :
      (extra : Opts)
      → let base = e.files.resolve work_dir in
        e.extract_info (update (build_common_ydl_opts e.environ base (some config)) extra) url true
        ≡ e.extract_info (update (engine_opts e.environ base (some config)) extra) (strip url) true
  extract_agrees extra =
      let base = e.files.resolve work_dir in
      let opts = update (engine_opts e.environ base (some config)) extra in
      ap (λ o. e.extract_info (update o extra) url true) (opts_agree e.environ base config)
      ∙ ap (λ u. e.extract_info opts u true) (sym trimmed)

  runs_agree :
      (extra : Opts) (locate found : Info → Result Error (String × Info))
      → ((i : Info) → locate i ≡ found i)
      → let base = e.files.resolve work_dir in
        let opts = update (build_common_ydl_opts e.environ base (some config)) extra in
        let other = update (engine_opts e.environ base (some config)) extra in
        after_check
          (validate_http_url e.lib url)
          (if e.makes_dir base
            then settle_download false base locate (e.extract_info opts url true) dirs
            else (raised os_error, dirs))
          dirs
        ≡ engine_run base found dirs
            (engine_validate e.lib url)
            (e.makes_dir base)
            (e.extract_info other (strip url) true)
  runs_agree extra locate found same =
      let base = e.files.resolve work_dir in
      let opts = update (build_common_ydl_opts e.environ base (some config)) extra in
      let v = validate_http_url e.lib url in
      run_agrees base locate found same dirs v (e.makes_dir base) (e.extract_info opts url true)
      ∙ ap (engine_run base found dirs v (e.makes_dir base)) (extract_agrees extra)
      ∙ ap
          (λ u. engine_run base found dirs u (e.makes_dir base) (
            e.extract_info (update (engine_opts e.environ base (some config)) extra) (strip url)
              true))
          (validate_agrees e.lib url)

  -- Into a given directory and with a given configuration, `download_video` returns and raises what
  -- the engine's `download_video_sync` does, and removes no directory, for a URL without white
  -- space around it.
  pub download_video_agrees : download_video e mkdtemp url (some work_dir) (some config) dirs ≡ (
    result_of (e.files.resolve work_dir) (download_video_sync e false url work_dir (some config)),
    dirs,
  )
  unfolding download_video download_video_sync run_download locate_video
  download_video_agrees =
      let base = e.files.resolve work_dir in
      let find = engine_resolve e.files e.re_escape base in
      runs_agree engine_video_opts (locate_video e base) (λ i. located_video e.files i (find i))
        (λ i.
          ap (checked_video e.files i) (resolve_agrees e.files e.re_escape base i)
          ∙ checked_video_agrees e.files i (find i))

  -- The same of `download_audio` and the engine's `download_audio_sync`.
  pub download_audio_agrees : download_audio e mkdtemp url (some work_dir) (some config) dirs ≡ (
    result_of (e.files.resolve work_dir) (download_audio_sync e false url work_dir (some config)),
    dirs,
  )
  unfolding download_audio download_audio_sync run_download locate_audio audio_file
  download_audio_agrees =
      let base = e.files.resolve work_dir in
      let mp3 = only_one e.files (real_files e.files (e.files.glob base "*.mp3")) in
      runs_agree (engine_audio_opts base) (locate_audio e base)
        (λ i. located_audio e.files i (audio_file e base i))
        (λ i.
          ap (λ o. checked_audio e.files i (or_next o mp3))
            (resolve_agrees e.files e.re_escape base i)
          ∙ checked_audio_agrees e.files i (audio_file e base i))
