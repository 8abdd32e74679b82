-- ===== src/Engine/Facade.antt =====
-- downloader/yt_dlp_downloader.py: `YtDlpMediaDownloader`. The stages that it reports to
-- `on_progress` are the state of `download`, and the directories that there are that of `probe`.
use mix_saving_bot.Common.{
  ℕ, String, true, Option, none, some, List, [], ◌∷◌, ◌++◌, ltb, if◌then◌else◌, ◌==◌, string_eq,
  nat_eq,
}
use mix_saving_bot.Engine.Output.{slim_metadata}
use mix_saving_bot.Text.{strip, lower, elem}
use Prim.Native.String.{◌++◌ as ◌+s◌}
use mix_saving_bot.Common.Dict.{get}
use mix_saving_bot.Common.Exec.{Exec, Result, ok, raised, pure, raise, ◌>>=◌, ◌>>◌}
use mix_saving_bot.Engine.Files.{Files, Info, Value, number}
use mix_saving_bot.Engine.Errors.{Error, mapped, download_error, os_error}
use mix_saving_bot.Engine.Download.{
  Engine, Places, extract_info_only, download_video_sync, download_audio_sync, cleanup_work_dir,
}
use mix_saving_bot.Runner.World.{DownloadJobContext}
use mix_saving_bot.Sanitize.{Verdict, accepted, validate_for_download}

pub data Stage : Type 0 where
  starting downloading finished : Stage

pub data Exn : Type 0 where
  fatal transient : String → Exn
  -- `SanitizeError`, or the `ValueError` of `urlparse`
  refused : Verdict → Exn
  engine_error : Error → Exn

-- an item of the list that `download` returns
pub record Media : Type 0 where
  pub local_path : String
  pub title : Option Value
  pub duration_sec : Option Value
  pub mime_type : String

pub data Mode : Type 0 where
  audio video : Mode

pub record Facade : Type 0 where
  pub engine : Engine
  pub places : Places
  pub config_path : Option String
  pub digits : ℕ → String
  -- tempfile.mkdtemp(prefix="mixdl-probe-")
  pub mkdtemp : String

unfoldable pub mode_of : Option String → Mode
mode_of fmt =
    if elem (lower (strip (elim fmt [ none ↦ "" | some s ↦ s ])))
      ("audio" ∷ "mp3" ∷ "bestaudio" ∷ [])
    then audio
    else video

-- the `except` clauses; yt-dlp's own exception does not leave the engine
abbrev pub facade_error : Error → Exn
facade_error (mapped category message) = fatal message
facade_error (download_error message) = transient message
facade_error x = engine_error x

abbrev pub lift_engine : {A : Type 0} {S : Type 0} → Result Error A → Exec Exn S A
lift_engine (ok a) = pure a
lift_engine (raised x) = raise (facade_error x)

abbrev pub check_url : {S : Type 0} → Verdict → Exec Exn S (Unit {0})
check_url accepted = pure tt
check_url v = raise (refused v)

abbrev pub report : Stage → Exec Exn (List Stage) (Unit {0})
report stage stages = (ok tt, stages ++ stage ∷ [])

abbrev pub mime_of : Mode → String → String
mime_of audio suffix = "audio/mpeg"
mime_of video suffix = if suffix == ".mp4" then "video/mp4" else "application/octet-stream"

abbrev pub media_of : Files → Mode → String → Info → Media
media_of fs mode outfile slim = record {
  local_path = fs.resolve outfile;
  title = get "title" slim;
  duration_sec = get "duration" slim;
  mime_type = mime_of mode (lower (fs.suffix outfile));
}

unfoldable pub sync_download : Facade → DownloadJobContext → Mode → Result Error (String × Info)
sync_download f ctx audio =
    download_audio_sync f.engine true ctx.source_url ctx.work_dir f.config_path
sync_download f ctx video =
    download_video_sync f.engine true ctx.source_url ctx.work_dir f.config_path

-- what follows the engine
abbrev pub hand_over :
    Facade → DownloadJobContext → Mode → String × Info → Exec Exn (List Stage) (List Media)
hand_over f ctx mode (outfile, slim) =
    if ltb ctx.constraints.max_file_size_bytes (f.engine.files.size_of outfile)
    then raise (fatal "Downloaded file exceeds configured size limit.")
    else (do report finished; pure (media_of f.engine.files mode outfile slim ∷ []))

abbrev pub make_work : Facade → DownloadJobContext → Exec Exn (List Stage) (Unit {0})
make_work f ctx = if f.engine.makes_dir ctx.work_dir then pure tt else raise (engine_error os_error)

-- the engine, and what follows it
unfoldable pub run_engine : Facade → DownloadJobContext → Exec Exn (List Stage) (List Media)
unfolding mode_of sync_download
run_engine f ctx = do
  out ← lift_engine (sync_download f ctx (mode_of ctx.requested_format_id))
  hand_over f ctx (mode_of ctx.requested_format_id) out

unfoldable pub work : Facade → DownloadJobContext → Exec Exn (List Stage) (List Media)
unfolding run_engine
work f ctx = do make_work f ctx; report downloading; run_engine f ctx

unfoldable pub download : Facade → DownloadJobContext → Exec Exn (List Stage) (List Media)
unfolding work
download f ctx = do
  report starting
  check_url (validate_for_download f.engine.lib ctx.source_url ctx.constraints)
  work f ctx

abbrev pub from_engine : {A : Type 0} → Result Error A × List String → Result Exn A × List String
from_engine (ok a, dirs) = (ok a, dirs)
from_engine (raised x, dirs) = (raised (facade_error x), dirs)

-- `_run` of `probe`: an exception of the clean-up takes the place of another
abbrev pub after_cleanup :
    {A : Type 0}
    → Result Error A
    → Result Error (Unit {0}) × List String
    → Result Error A × List String
after_cleanup r (ok u, dirs) = (r, dirs)
after_cleanup r (raised x, dirs) = (raised x, dirs)

unfoldable pub probe_run : Facade → DownloadJobContext → Exec Error (List String) Info
unfolding cleanup_work_dir
probe_run f ctx dirs =
    after_cleanup (extract_info_only f.engine ctx.source_url f.mkdtemp f.config_path)
      (cleanup_work_dir f.places true f.mkdtemp (f.mkdtemp ∷ dirs))

abbrev pub too_long : Facade → DownloadJobContext → Option Value → Exec Exn (List String) (Unit {0})
too_long f ctx (some (number n)) =
    if ltb ctx.constraints.max_duration_sec n
    then raise (
        fatal
          ("Media exceeds max duration (" +s (f.digits ctx.constraints.max_duration_sec +s "s).")))
    else pure tt
too_long f ctx _ = pure tt

unfoldable pub probe : Facade → DownloadJobContext → Exec Exn (List String) Info
unfolding probe_run
probe f ctx = do
  check_url (validate_for_download f.engine.lib ctx.source_url ctx.constraints)
  info ← (λ dirs. from_engine (probe_run f ctx dirs))
  too_long f ctx (get "duration" (slim_metadata info))
  pure (slim_metadata info)
