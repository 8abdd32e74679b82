-- ===== src/Engine/Download.antt =====
-- downloader/_sync_engine.py: the three calls of yt-dlp, and the removal of a working directory.
-- yt-dlp is a parameter, a function of its options, the URL and `download`.
use mix_saving_bot.Common.{
  String, Bool, true, false, not, ◌&&◌, Option, none, some, List, [], ◌∷◌, if◌then◌else◌, ◌==◌,
  string_eq, nat_eq,
}
use mix_saving_bot.Text.{elem, lower, strip}
use mix_saving_bot.Common.Dict.{put}
use mix_saving_bot.Common.Exec.{Exec, Result, ok, raised}
use mix_saving_bot.Engine.Files.{Entry, Files, Info}
use mix_saving_bot.Engine.Errors.{
  Error, value_error, os_error, assertion_error, crash, download_error, RawError, mapped_error,
  validate_http_url, ◌>>=◌, ◌>>◌,
}
use mix_saving_bot.Engine.Options.{
  output_template, Opts, Environ, build_common_ydl_opts, update, flag, word, processors, hooks,
}
use mix_saving_bot.Engine.Output.{only_one, resolve_output_path, slim_metadata, or_next}
use mix_saving_bot.Sanitize.{UrlLibrary}

-- how `extract_info` ends
pub data Extracted : Type 0 where
  info : Info → Extracted
  not_dict : Extracted
  raw : RawError → Extracted
  other_error : Extracted

pub record Engine : Type 0 where
  pub lib : UrlLibrary
  pub environ : Environ
  pub files : Files
  pub re_escape : String → String
  -- base.mkdir(parents=True, exist_ok=True)
  pub makes_dir : String → Bool
  -- whether shutil.rmtree(base, ignore_errors=True) leaves the directory
  pub rmtree_fails : String → Bool
  pub extract_info : Opts → String → Bool → Extracted

-- the `try` around yt-dlp, and the `assert` after it
abbrev pub checked : Extracted → Result Error Info
checked (info i) = ok i
checked not_dict = raised assertion_error
checked (raw exc) = raised (mapped_error exc)
checked other_error = raised crash

abbrev pub make_base : Engine → String → Result Error (Unit {0})
make_base e base = if e.makes_dir base then ok tt else raised os_error

-- opts["progress_hooks"] = [progress_hook], if there is one
abbrev pub with_hook : Bool → Opts → Opts
with_hook hook opts = if hook then put "progress_hooks" hooks opts else opts

abbrev pub video_opts : Opts
video_opts =
    ("format", word "bestvideo*+bestaudio/best")
    ∷ ("merge_output_format", word "mp4")
    ∷ ("remuxvideo", word "mp4")
    ∷ []

abbrev pub audio_opts : String → Opts
audio_opts base =
    ("format", word "bestaudio/best")
    ∷ (
      "postprocessors",
      processors (
          (("key", "FFmpegExtractAudio")
            ∷ ("preferredcodec", "mp3")
            ∷ ("preferredquality", "192")
            ∷ [])
          ∷ []),
    )
    ∷ ("outtmpl", word (output_template base))
    ∷ []

unfoldable pub extract_info_only : Engine → String → String → Option String → Result Error Info
unfolding validate_http_url build_common_ydl_opts mapped_error
extract_info_only e url work_dir config_path = do
  validate_http_url e.lib url
  make_base e (e.files.resolve work_dir)
  checked (
      e.extract_info
        (put "skip_download" (flag true)
          (build_common_ydl_opts e.environ (e.files.resolve work_dir) config_path))
        (strip url) false)

-- the steps that both downloads begin with; `locate` is the rest
unfoldable pub run_download :
    {B : Type 0} → Engine → Opts → String → String → (Info → Result Error B) → Result Error B
unfolding validate_http_url mapped_error
run_download e opts base url locate = do
  validate_http_url e.lib url
  make_base e base
  i ← checked (e.extract_info opts (strip url) true)
  locate i

-- the test on the file that was found
abbrev pub located_video : Files → Info → Option String → Result Error (String × Info)
located_video fs i none =
    raised (download_error "Download finished but output file could not be located")
located_video fs i (some p) =
    if fs.is_file p
    then ok (p, slim_metadata i)
    else raised (download_error "Download finished but output file could not be located")

unfoldable pub download_video_sync :
    Engine → Bool → String → String → Option String → Result Error (String × Info)
unfolding build_common_ydl_opts update run_download resolve_output_path slim_metadata
download_video_sync e hook url work_dir config_path =
    let base = e.files.resolve work_dir in
    let opts =
      update (with_hook hook (build_common_ydl_opts e.environ base config_path)) video_opts in
    run_download e opts base url
      (λ i. located_video e.files i (resolve_output_path e.files e.re_escape base i))

-- the mp3 files of the directory, and the one if there is one
unfoldable pub real_files : Files → List Entry → List Entry
real_files fs [] = []
real_files fs (x ∷ xs) = let rest = real_files fs xs in if fs.is_file x.path then x ∷ rest else rest

abbrev pub no_mp3 : Error
no_mp3 =
    download_error "Audio download finished but MP3 output was not found (is ffmpeg installed?)"

abbrev pub located_audio : Files → Info → Option String → Result Error (String × Info)
located_audio fs i none = raised no_mp3
located_audio fs i (some p) =
    if fs.is_file p && lower (fs.suffix p) == ".mp3" then ok (p, slim_metadata i) else raised no_mp3

-- the file that was found, or else the one mp3 file
unfoldable pub audio_file : Engine → String → Info → Option String
unfolding resolve_output_path real_files
audio_file e base i =
    or_next (resolve_output_path e.files e.re_escape base i)
      (only_one e.files (real_files e.files (e.files.glob base "*.mp3")))

unfoldable pub download_audio_sync :
    Engine → Bool → String → String → Option String → Result Error (String × Info)
unfolding build_common_ydl_opts update run_download audio_file slim_metadata
download_audio_sync e hook url work_dir config_path =
    let base = e.files.resolve work_dir in
    let opts =
      update (with_hook hook (build_common_ydl_opts e.environ base config_path))
        (audio_opts base) in
    run_download e opts base url (λ i. located_audio e.files i (audio_file e base i))

-- what `cleanup_work_dir` asks of the system; the state is the directories that there
-- are, and a plain file that is unlinked is none of them
pub record Places : Type 0 where
  pub temp_dir : String
  pub resolve : String → String
  -- Path.parts
  pub parts : String → List String
  pub rmtree_fails : Bool

-- root.relative_to(tmp) does not raise
abbrev pub is_prefix : List String → List String → Bool
is_prefix [] ys = true
is_prefix (x ∷ xs) [] = false
is_prefix (x ∷ xs) (y ∷ ys) = x == y && is_prefix xs ys

abbrev pub without_tree : String → List String → List String
without_tree d [] = []
without_tree d (x ∷ xs) = let rest = without_tree d xs in if x == d then rest else x ∷ rest

unfoldable pub cleanup_work_dir : Places → Bool → String → Exec Error (List String) (Unit {0})
cleanup_work_dir pl strict work_dir dirs =
    let root = pl.resolve work_dir in
    if strict && not (is_prefix (pl.parts (pl.resolve pl.temp_dir)) (pl.parts root))
    then (raised value_error, dirs)
    else if elem root dirs
    then if pl.rmtree_fails then (raised os_error, dirs) else (ok tt, without_tree root dirs)
    else (ok tt, dirs)
