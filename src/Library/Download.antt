-- ===== src/Library/Download.antt =====
-- services/downloader.py: `download_video` and `download_audio`. The state is the directories that
-- there are; a directory that the call has made is removed when the download fails.
use mix_saving_bot.Common.{
  String, Bool, true, false, not, ◌&&◌, Option, none, some, List, [], ◌∷◌, if◌then◌else◌, ◌==◌,
  string_eq, nat_eq,
}
use mix_saving_bot.Common.Exec.{Exec, Result, ok, raised}
use mix_saving_bot.Engine.Files.{Files, Info}
use mix_saving_bot.Engine.Errors.{Error, os_error, assertion_error, crash, download_error}
use mix_saving_bot.Engine.Options.{Opts, update, word, processors}
use mix_saving_bot.Engine.Output.{only_one, or_next}
use mix_saving_bot.Engine.Download.{
  Engine, Extracted, info, not_dict, raw, other_error, real_files, without_tree,
}
use mix_saving_bot.Library.Checks.{validate_http_url, mapped_error}
use mix_saving_bot.Library.Options.{build_common_ydl_opts, resolve_output_path, slim_metadata}
use mix_saving_bot.Text.{lower}
use Prim.Native.String.{◌++◌ as ◌+s◌}

pub record DownloadResult : Type 0 where
  pub path : String
  pub work_dir : String
  pub metadata : Info

abbrev pub Ran : Type 0
Ran = Result Error DownloadResult × List String

-- if owns_dir: shutil.rmtree(base, ignore_errors=True), which may leave the directory: `removes` is
-- whether it is owned and is removed
abbrev pub given_up : Bool → String → List String → List String
given_up removes base dirs = if removes then without_tree base dirs else dirs

abbrev pub closing : Bool → String → Result Error (String × Info) → List String → Ran
closing removes base (ok (p, metadata)) dirs =
    (ok (record { path = p; work_dir = base; metadata = metadata }), dirs)
closing removes base (raised x) dirs = (raised x, given_up removes base dirs)

-- what follows yt-dlp; `locate` looks for the file
unfoldable pub settle_download :
    Bool → String → (Info → Result Error (String × Info)) → Extracted → List String → Ran
unfolding mapped_error
settle_download removes base locate (info i) dirs = closing removes base (locate i) dirs
settle_download removes base locate not_dict dirs = (raised assertion_error, dirs)
settle_download removes base locate (raw exc) dirs =
    (raised (mapped_error exc), given_up removes base dirs)
settle_download removes base locate other_error dirs = (raised crash, given_up removes base dirs)

-- the directory, made by `mkdtemp` if none is given, and the directories that there are then
abbrev pub base_of : Engine → String → Option String → List String → Bool × String × List String
base_of e mkdtemp (some work_dir) dirs = (false, e.files.resolve work_dir, dirs)
base_of e mkdtemp none dirs = (true, e.files.resolve mkdtemp, e.files.resolve mkdtemp ∷ dirs)

abbrev pub in_base :
    Engine
    → (String → Opts)
    → (String → Info → Result Error (String × Info))
    → String
    → Bool × String × List String
    → Ran
in_base e opts locate url (owns_dir, base, dirs) =
    if e.makes_dir base
    then settle_download (owns_dir && not (e.rmtree_fails base)) base (locate base)
        (e.extract_info (opts base) url true) dirs
    else (raised os_error, dirs)

abbrev pub after_check : Result Error (Unit {0}) → Ran → List String → Ran
after_check (ok u) r dirs = r
after_check (raised x) r dirs = (raised x, dirs)

abbrev pub video_opts : Engine → Option String → String → Opts
video_opts e config_path base = update (build_common_ydl_opts e.environ base config_path) (
    ("format", word "bestvideo*+bestaudio/best")
    ∷ ("merge_output_format", word "mp4")
    ∷ ("remuxvideo", word "mp4")
    ∷ [])

abbrev pub audio_opts : Engine → Option String → String → Opts
audio_opts e config_path base = update (build_common_ydl_opts e.environ base config_path) (
    ("format", word "bestaudio/best")
    ∷ (
      "postprocessors",
      processors (
          (("key", "FFmpegExtractAudio")
            ∷ ("preferredcodec", "mp3")
            ∷ ("preferredquality", "192")
            ∷ [])
          ∷ []),
    )
    ∷ ("outtmpl", word (base +s "/%(id)s_%(title).100B.%(ext)s"))
    ∷ [])

abbrev pub checked_video : Files → Info → Option String → Result Error (String × Info)
checked_video fs i none =
    raised (download_error "Download finished but output file could not be located")
checked_video fs i (some p) =
    if fs.is_file p
    then ok (p, slim_metadata i)
    else raised (download_error "Download finished but output file could not be located")

abbrev pub no_mp3 : Error
no_mp3 =
    download_error "Audio download finished but MP3 output was not found (is ffmpeg installed?)"

abbrev pub checked_audio : Files → Info → Option String → Result Error (String × Info)
checked_audio fs i none = raised no_mp3
checked_audio fs i (some p) =
    if fs.is_file p && lower (fs.suffix p) == ".mp3" then ok (p, slim_metadata i) else raised no_mp3

unfoldable pub locate_video : Engine → String → Info → Result Error (String × Info)
unfolding resolve_output_path slim_metadata
locate_video e base i = checked_video e.files i (resolve_output_path e.files e.re_escape base i)

unfoldable pub locate_audio : Engine → String → Info → Result Error (String × Info)
unfolding resolve_output_path slim_metadata real_files
locate_audio e base i = checked_audio e.files i (
    or_next (resolve_output_path e.files e.re_escape base i)
      (only_one e.files (real_files e.files (e.files.glob base "*.mp3"))))

module _ (e : Engine) (mkdtemp url : String) (work_dir config_path : Option String) where
  unfoldable pub download_video : Exec Error (List String) DownloadResult
  unfolding validate_http_url build_common_ydl_opts update settle_download locate_video
  download_video dirs =
      after_check (validate_http_url e.lib url)
        (in_base e (video_opts e config_path) (locate_video e) url
          (base_of e mkdtemp work_dir dirs))
        dirs

  unfoldable pub download_audio : Exec Error (List String) DownloadResult
  unfolding validate_http_url build_common_ydl_opts update settle_download locate_audio
  download_audio dirs =
      after_check (validate_http_url e.lib url)
        (in_base e (audio_opts e config_path) (locate_audio e) url
          (base_of e mkdtemp work_dir dirs))
        dirs
