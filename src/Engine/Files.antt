-- ===== src/Engine/Files.antt =====
-- What the engine reads of the file system, and of yt-dlp's `info` dictionary. Both are parameters.
use mix_saving_bot.Common.{
  ℕ, String, Bool, Option, none, some, List, [], ◌∷◌, if◌then◌else◌, ◌==◌, string_eq, nat_eq,
}
use mix_saving_bot.Common.Dict.{Dict}

-- a path in a directory, as `iterdir` and `glob` list it
pub record Entry : Type 0 where
  pub path : String
  pub name : String
  pub mtime : ℕ

-- the file system, after yt-dlp has run
pub record Files : Type 0 where
  pub is_file : String → Bool
  pub resolve : String → String
  -- work_dir.iterdir(), and work_dir.glob(pattern)
  pub iterdir : String → List Entry
  pub glob : String → String → List Entry
  -- Path.suffix
  pub suffix : String → String
  -- path.stat().st_size
  pub size_of : String → ℕ

-- an item of `requested_downloads`
pub data Requested : Type 0 where
  file : Option String → Requested
  not_dict : Requested

-- the values that the engine finds in `info`: texts (the paths and the id are texts), numbers, None,
-- and the list above
pub data Value : Type 0 where
  null : Value
  text : String → Value
  number : ℕ → Value
  downloads : List Requested → Value

abbrev pub Info : Type 0
Info = Dict String Value

-- a text under a key that is there and not empty
abbrev pub some_text : Option Value → Option String
some_text (some (text s)) = if s == "" then none else some s
some_text _ = none

abbrev pub some_downloads : Option Value → List Requested
some_downloads (some (downloads l)) = l
some_downloads _ = []

-- the filepath of the last item
abbrev pub last_file : List Requested → Option String
last_file [] = none
last_file (not_dict ∷ []) = none
last_file (file none ∷ []) = none
last_file (file (some s) ∷ []) = if s == "" then none else some s
last_file (r ∷ q ∷ rest) = last_file (q ∷ rest)
