-- ===== src/Engine/Options.antt =====
-- downloader/_sync_engine.py: `default_ytdlp_config_path` and the options for `YoutubeDL`. Paths are
-- texts; the environment variables are an argument.
use mix_saving_bot.Common.{
  ℕ, String, Bool, true, false, Option, none, some, List, [], ◌∷◌, if◌then◌else◌, ◌==◌, string_eq,
  nat_eq,
}
use Prim.Native.String.{◌++◌ as ◌+s◌}
use mix_saving_bot.Common.Dict.{Dict, put}

pub data Opt : Type 0 where
  flag : Bool → Opt
  count : ℕ → Opt
  word : String → Opt
  words : List String → Opt
  pairs : Dict String String → Opt
  processors : List (Dict String String) → Opt
  hooks : Opt

abbrev pub Opts : Type 0
Opts = Dict String Opt

pub record Environ : Type 0 where
  pub ytdlp_config : Option String
  pub ffmpeg_location : Option String
  pub cookies_file : Option String
  pub is_file : String → Bool
  -- Path(...).expanduser().resolve()
  pub resolve : String → String
  -- the directory of the module, and that of the project
  pub here : String
  pub project_root : String

-- a variable that is set and not empty
abbrev pub set_text : Option String → Option String
set_text none = none
set_text (some s) = if s == "" then none else some s

unfoldable pub bundled_config : Environ → String
bundled_config env =
    let bundled = env.here +s "/yt-dlp.conf" in
    if env.is_file bundled then bundled else env.project_root +s "/config/yt-dlp.conf"

unfoldable pub default_ytdlp_config_path : Environ → Option String → String
unfolding bundled_config
default_ytdlp_config_path env (some explicit) = explicit
default_ytdlp_config_path env none = elim (set_text env.ytdlp_config) [
  | some path ↦ env.resolve path
  | none ↦ bundled_config env
]

-- opts[key] = value, if there is a value
abbrev pub put_word : String → Option String → Opts → Opts
put_word key none opts = opts
put_word key (some s) opts = put key (word s) opts

abbrev pub config_locations : Environ → Option String → List String
config_locations env config_path =
    let cfg = default_ytdlp_config_path env config_path in if env.is_file cfg then cfg ∷ [] else []

abbrev pub put_words : String → List String → Opts → Opts
put_words key [] opts = opts
put_words key (w ∷ ws) opts = put key (words (w ∷ ws)) opts

abbrev pub cookie_file : Environ → Option String
cookie_file env = elim (set_text env.cookies_file) [
  | none ↦ none
  | some path ↦ if env.is_file path then some path else none
]

abbrev pub output_template : String → String
output_template work_dir = work_dir +s "/%(id)s_%(title).100B.%(ext)s"

unfoldable pub build_common_ydl_opts : Environ → String → Option String → Opts
unfolding default_ytdlp_config_path
build_common_ydl_opts env work_dir config_path = put_word "cookiefile" (cookie_file env) (
    put_word "ffmpeg_location" (set_text env.ffmpeg_location) (
      put_words "config_locations" (config_locations env config_path) (
        ("quiet", flag true)
        ∷ ("no_warnings", flag true)
        ∷ ("noplaylist", flag true)
        ∷ ("outtmpl", word (output_template work_dir))
        ∷ ("paths", pairs (("home", work_dir) ∷ ("temp", work_dir) ∷ []))
        ∷ ("windowsfilenames", flag false)
        ∷ ("ignoreerrors", flag false)
        ∷ ("noprogress", flag true)
        ∷ ("retries", count 10)
        ∷ ("fragment_retries", count 10)
        ∷ ("socket_timeout", count 45)
        ∷ [])))

-- opts.update(extra)
unfoldable pub update : Opts → Opts → Opts
update opts [] = opts
update opts ((key, opt) ∷ extra) = update (put key opt opts) extra
