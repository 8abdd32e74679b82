-- ===== src/Library/Options.antt =====
-- services/downloader.py: the options for `YoutubeDL`, the metadata that is kept, and the search for
-- the file that yt-dlp has left.
use mix_saving_bot.Common.{
  String, true, false, Option, none, some, List, [], ◌∷◌, if◌then◌else◌, string_eq, nat_eq,
}
use mix_saving_bot.Common.Dict.{get, put}
use mix_saving_bot.Common.Sorting.{sort_desc}
use mix_saving_bot.Engine.Files.{Files, Entry, Info, some_text, some_downloads, last_file}
use mix_saving_bot.Engine.Options.{Opts, Environ, flag, word, words, count, pairs, set_text}
use mix_saving_bot.Engine.Output.{is_whole, only_one, existing, or_next, keep}
use Prim.Native.String.{◌++◌ as ◌+s◌}

unfoldable pub default_ytdlp_config_path : Environ → String
default_ytdlp_config_path env = elim (set_text env.ytdlp_config) [
  | some path ↦ env.resolve path
  | none ↦
      let bundled = env.here +s "/yt-dlp.conf" in
      if env.is_file bundled then bundled else env.project_root +s "/config/yt-dlp.conf"
]

abbrev pub config_of : Environ → Option String → String
config_of env none = default_ytdlp_config_path env
config_of env (some path) = path

-- opts[key] = value, for a value that is there
abbrev pub with_locations : Environ → String → Opts → Opts
with_locations env cfg opts =
    if env.is_file cfg then put "config_locations" (words (cfg ∷ [])) opts else opts

abbrev pub with_ffmpeg : Option String → Opts → Opts
with_ffmpeg none opts = opts
with_ffmpeg (some path) opts = put "ffmpeg_location" (word path) opts

abbrev pub with_cookies : Environ → Option String → Opts → Opts
with_cookies env none opts = opts
with_cookies env (some path) opts =
    if env.is_file path then put "cookiefile" (word path) opts else opts

abbrev pub common_opts : String → Opts
common_opts work_dir =
    ("quiet", flag true)
    ∷ ("no_warnings", flag true)
    ∷ ("noplaylist", flag true)
    ∷ ("outtmpl", word (work_dir +s "/%(id)s_%(title).100B.%(ext)s"))
    ∷ ("paths", pairs (("home", work_dir) ∷ ("temp", work_dir) ∷ []))
    ∷ ("windowsfilenames", flag false)
    ∷ ("ignoreerrors", flag false)
    ∷ ("noprogress", flag true)
    ∷ ("retries", count 10)
    ∷ ("fragment_retries", count 10)
    ∷ ("socket_timeout", count 45)
    ∷ []

unfoldable pub build_common_ydl_opts : Environ → String → Option String → Opts
unfolding default_ytdlp_config_path
build_common_ydl_opts env work_dir config_path = with_cookies env (set_text env.cookies_file) (
    with_ffmpeg (set_text env.ffmpeg_location)
      (with_locations env (config_of env config_path) (common_opts work_dir)))

unfoldable pub slim_from : List String → Info → Info
slim_from [] info = []
slim_from (k ∷ ks) info = keep k (get k info) (slim_from ks info)

unfoldable pub slim_metadata : Info → Info
unfolding slim_from
slim_metadata info =
    slim_from
      ("id" ∷ "title" ∷ "extractor" ∷ "extractor_key" ∷ "webpage_url" ∷ "duration" ∷ "width"
        ∷ "height" ∷ "ext" ∷ "format_id" ∷ "playlist_count" ∷ [])
      info

module _ (fs : Files) where
  unfoldable pub first_whole : List Entry → Option String
  first_whole [] = none
  first_whole (e ∷ es) =
      let rest = first_whole es in if is_whole fs e then some (fs.resolve e.path) else rest

  unfoldable pub candidates : List Entry → List Entry
  candidates [] = []
  candidates (e ∷ es) = let rest = candidates es in if is_whole fs e then e ∷ rest else rest

  unfoldable pub by_pattern : (String → String) → String → Option String → Option String
  unfolding first_whole
  by_pattern re_escape work_dir none = none
  by_pattern re_escape work_dir (some pattern) =
      first_whole (sort_desc (λ (e : Entry). e.mtime) (fs.glob work_dir (re_escape pattern +s "*")))

  unfoldable pub resolve_output_path : (String → String) → String → Info → Option String
  unfolding by_pattern candidates
  resolve_output_path re_escape work_dir info =
      or_next (existing fs (some_text (get "filepath" info))) (
        or_next (existing fs (last_file (some_downloads (get "requested_downloads" info)))) (
          or_next (by_pattern re_escape work_dir (some_text (get "id" info)))
            (only_one fs (sort_desc (λ (e : Entry). e.mtime) (candidates (fs.iterdir work_dir))))))
