-- ===== src/Engine/Output.antt =====
-- downloader/_sync_engine.py: the metadata that is kept, and the file that yt-dlp has left.
use mix_saving_bot.Common.{
  String, Bool, not, ◌&&◌, Option, none, some, List, [], ◌∷◌, if◌then◌else◌, string_eq, nat_eq,
}
use Prim.Native.String.{◌++◌ as ◌+s◌}
use mix_saving_bot.Common.Dict.{get}
use mix_saving_bot.Common.Sorting.{sort_desc}
use mix_saving_bot.Engine.Files.{
  Files, Entry, Info, Value, null, some_text, some_downloads, last_file,
}
use mix_saving_bot.Text.{ends_with}

abbrev pub slim_keys : List String
slim_keys =
    "id" ∷ "title" ∷ "extractor" ∷ "extractor_key" ∷ "webpage_url" ∷ "duration" ∷ "width" ∷ "height"
    ∷ "ext" ∷ "format_id" ∷ "playlist_count" ∷ []

-- if k in info and info[k] is not None: out[k] = info[k]
abbrev pub keep : String → Option Value → Info → Info
keep k none out = out
keep k (some null) out = out
keep k (some v) out = (k, v) ∷ out

unfoldable pub slim_from : List String → Info → Info
slim_from [] info = []
slim_from (k ∷ ks) info = keep k (get k info) (slim_from ks info)

unfoldable pub slim_metadata : Info → Info
unfolding slim_from
slim_metadata info = slim_from slim_keys info

abbrev pub or_next : Option String → Option String → Option String
or_next none next = next
or_next (some p) next = some p

module _ (fs : Files) where
  -- a file that is not a partial download
  abbrev pub is_whole : Entry → Bool
  is_whole e = fs.is_file e.path && not (ends_with ".part" e.name)

  unfoldable pub first_whole : List Entry → Option String
  first_whole [] = none
  first_whole (e ∷ es) =
      let rest = first_whole es in if is_whole e then some (fs.resolve e.path) else rest

  unfoldable pub whole_ones : List Entry → List Entry
  whole_ones [] = []
  whole_ones (e ∷ es) = let rest = whole_ones es in if is_whole e then e ∷ rest else rest

  abbrev pub only_one : List Entry → Option String
  only_one (e ∷ []) = some (fs.resolve e.path)
  only_one _ = none

  abbrev pub existing : Option String → Option String
  existing none = none
  existing (some p) = if fs.is_file p then some (fs.resolve p) else none

  -- the newest file that the pattern of the id lists
  unfoldable pub by_id : (String → String) → String → Option String → Option String
  unfolding first_whole
  by_id re_escape work_dir none = none
  by_id re_escape work_dir (some id) =
      first_whole (sort_desc (λ (e : Entry). e.mtime) (fs.glob work_dir (re_escape id +s "*")))

  unfoldable pub resolve_output_path : (String → String) → String → Info → Option String
  unfolding by_id whole_ones
  resolve_output_path re_escape work_dir info =
      or_next (existing (some_text (get "filepath" info))) (
        or_next (existing (last_file (some_downloads (get "requested_downloads" info)))) (
          or_next (by_id re_escape work_dir (some_text (get "id" info)))
            (only_one (sort_desc (λ (e : Entry). e.mtime) (whole_ones (fs.iterdir work_dir))))))
