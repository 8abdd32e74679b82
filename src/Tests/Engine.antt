-- ===== src/Tests/Engine.antt =====
-- The theorems of `Engine` on concrete data.
use mix_saving_bot.Common.{
  ◌≡◌, refl, true, false, none, some, [], ◌∷◌, if◌then◌else◌, ◌==◌, string_eq, nat_eq,
}
use mix_saving_bot.Engine.Probe.{Temporary, is_short, probe_cleans}
use mix_saving_bot.Engine.Facade.{
  probe, mode_of, sync_download, run_engine, Facade, work, download, Media,
}
use mix_saving_bot.Common.Sorting.{sort_desc}
use mix_saving_bot.Engine.Options.{build_common_ydl_opts}
use mix_saving_bot.Engine.Handed.{Handed, download-Handed}
use mix_saving_bot.Engine.Worker.{Raises, with_engine, raw_ending, raw_calls, fetch-raw}
use mix_saving_bot.Engine.Errors.{classify_message, RawError, validate_http_url}
use mix_saving_bot.Common.Dict.{get}
use mix_saving_bot.Runner.Outcomes.{after_ending}
use mix_saving_bot.Text.{lower, ends_with, strip}
use mix_saving_bot.Runner.Handle.{context, fetch}
use mix_saving_bot.Runner.World.{DownloadJobContext}
use mix_saving_bot.Engine.Output.{slim_from, slim_metadata, first_whole, by_id, resolve_output_path}
use mix_saving_bot.Sanitize.{validate_for_download}
use mix_saving_bot.Jobs.Repository.{Repo}
use mix_saving_bot.Engine.Download.{
  info, audio_file, run_download, download_audio_sync, raw, Engine, Extracted,
}
use mix_saving_bot.Engine.Files.{text, Info, Files}
use mix_saving_bot.Tests.Data.{
  request, url_library, env_of, quiet, world_of, waiting_job, finished_job,
}

abbrev files : Files
files = record {
  is_file = λ p. p == "/tmp/w/a_song.mp3";
  resolve = λ p. p;
  iterdir = λ d. [];
  glob = λ d pattern. record { path = "/tmp/w/a_song.mp3"; name = "a_song.mp3"; mtime = 5 } ∷ [];
  suffix = λ p. ".mp3";
  size_of = λ p. 1500;
}

-- yt-dlp leaves a song, or raises
abbrev pub engine_of : Extracted → Engine
engine_of answer = record {
  lib = url_library;
  environ = record {
    ytdlp_config = none;
    ffmpeg_location = none;
    cookies_file = none;
    is_file = λ p. false;
    resolve = λ p. p;
    here = "/srv/downloader";
    project_root = "/srv";
  };
  files = files;
  re_escape = λ s. s;
  makes_dir = λ d. true;
  rmtree_fails = λ d. false;
  extract_info = λ opts url download. answer;
}

abbrev facade_of : Extracted → Facade
facade_of answer = record {
  engine = engine_of answer;
  places = record {
    temp_dir = "/tmp";
    resolve = λ p. p;
    parts = λ p. if p == "/tmp" then "/" ∷ "tmp" ∷ [] else "/" ∷ "tmp" ∷ "p" ∷ [];
    rmtree_fails = false;
  };
  config_path = none;
  digits = λ n. "7200";
  mkdtemp = "/tmp/p";
}

abbrev pub song : Info
song = ("id", text "a") ∷ ("title", text "Song") ∷ []

abbrev call : DownloadJobContext
call = context (env_of quiet) "j1" request "/tmp/w"

abbrev pub refusal : RawError
refusal = record { str = "Video is geo restricted"; msg = ""; repr = "" }

abbrev handed : Media
handed = record {
  local_path = "/tmp/w/a_song.mp3";
  title = some (text "Song");
  duration_sec = none;
  mime_type = "audio/mpeg";
}

download-Handed_example : Handed (facade_of (info song)) call (handed ∷ [])
unfolding download work run_engine sync_download download_audio_sync run_download validate_http_url
    validate_for_download strip lower mode_of audio_file resolve_output_path by_id first_whole
    ends_with get slim_metadata slim_from build_common_ydl_opts sort_desc
download-Handed_example = download-Handed (facade_of (info song)) call (handed ∷ []) [] refl

raises : Raises (facade_of (raw refusal)) call refusal
unfolding validate_for_download validate_http_url strip lower
raises = record { allowed = refl; is_web = refl; makes = λ d. refl; raises = λ opts url. refl }

-- the URL is refused in this region, and no second download is tried
fetch-raw_example :
    let world = world_of waiting_job [] in
    let r = fetch (with_engine (env_of quiet) (facade_of (raw refusal))) 1 call world in
    (r.1.service
      ≡ after_ending 100 "j1"
          (raw_ending (classify_message "Video is geo restricted") "Video is geo restricted")
          world.service)
    × (r.1.calls ≡ raw_calls (classify_message "Video is geo restricted") call (call ∷ []))
fetch-raw_example =
    fetch-raw (facade_of (raw refusal)) call refusal raises (env_of quiet) (world_of waiting_job [])

-- three reports in a download of ten seconds

abbrev repo : Repo
repo = ("j0", finished_job) ∷ ("j1", waiting_job) ∷ []

temporary : Temporary (facade_of (info song)) ("/tmp/w" ∷ [])
temporary = record { fresh = refl; resolved = refl; inside = refl; removable = refl }

probe_cleans_example :
    let r = probe (facade_of (info song)) call ("/tmp/w" ∷ []) in
    (r.1 ≡ "/tmp/w" ∷ []) × (is_short 7200 r.0 ≡ true)
probe_cleans_example = probe_cleans (facade_of (info song)) call ("/tmp/w" ∷ []) temporary
