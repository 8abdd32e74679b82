-- ===== src/Storage/FileCache.antt =====
-- services/cache/file_cache.py: `FileCacheStore`. The disk maps a path to what `stat` tells of a
-- file; whether linking and copying fail is an argument. Paths are absolute and resolved.
use mix_saving_bot.Common.{
  ℕ, min, Bool, ◌&&◌, Option, none, some, if◌then◌else◌, ◌==◌, string_eq, nat_eq,
}
use mix_saving_bot.Text.{prefix}
use Prim.Native.Char.{code}
use Prim.Native.String.{String, ◌++◌ as ◌+s◌}
use mix_saving_bot.Common.Dict.{Dict, get, put, remove}
use mix_saving_bot.Common.Exec.{Exec, ok, raised}
use mix_saving_bot.Contracts.{CacheEntry}

pub record Stat : Type 0 where
  pub size : ℕ
  pub ctime : ℕ
  pub mtime : ℕ

pub data Exn : Type 0 where
  file_not_found os_error : Exn

abbrev pub Disk : Type 0
Disk = Dict String Stat

-- s.replace("..", "")
abbrev pub no_dots : String → String
no_dots String.[] = String.[]
no_dots (String.◌∷◌ c String.[]) = String.◌∷◌ c String.[]
no_dots (String.◌∷◌ c (String.◌∷◌ d s)) =
    let after_two = no_dots s in
    let after_one = no_dots (String.◌∷◌ d s) in
    if code c == 46 && code d == 46 then after_two else String.◌∷◌ c after_one

-- s.replace(c, "") for a character, by its code
abbrev pub without : ℕ → String → String
without n String.[] = String.[]
without n (String.◌∷◌ c s) =
    let rest = without n s in if code c == n then rest else String.◌∷◌ c rest

unfoldable pub blob_path : String → String → String
blob_path root cache_key =
    root +s ("/mixdl_" +s prefix 240 (without 92 (without 47 (no_dots cache_key))))

abbrev pub entry_of : String → String → Stat → ℕ → CacheEntry
entry_of cache_key path st created = record {
  cache_key = cache_key;
  local_path = path;
  byte_size = st.size;
  created_at_unix = created;
  content_hash = none;
}

abbrev pub stat_entry : String → String → Stat → CacheEntry
stat_entry cache_key path st = entry_of cache_key path st (min st.ctime st.mtime)

unfoldable pub get_entry : String → String → Disk → Option CacheEntry
unfolding blob_path
get_entry root cache_key disk =
    let path = blob_path root cache_key in
    elim (get path disk) [ none ↦ none | some st ↦ some (stat_entry cache_key path st) ]

-- the link or the copy keeps the size and the time of modification; a failure leaves no file behind
unfoldable pub put_blob : Bool → ℕ → String → String → Stat → Exec Exn Disk CacheEntry
put_blob fails now cache_key dest src disk =
    if fails
    then (raised os_error, disk)
    else let st : Stat = record { size = src.size; ctime = now; mtime = src.mtime } in
      (ok (entry_of cache_key dest st now), put dest st disk)

unfoldable pub put_from_path : Bool → ℕ → String → String → String → Exec Exn Disk CacheEntry
unfolding put_blob blob_path
put_from_path fails now root cache_key src_path disk = elim (get src_path disk) [
  | none ↦ (raised file_not_found, disk)
  | some src ↦
      let dest = blob_path root cache_key in
      elim (get dest disk) [
        | some st ↦ (ok (stat_entry cache_key dest st), disk)
        | none ↦ put_blob fails now cache_key dest src disk
      ]
]

unfoldable pub delete : String → String → Disk → Disk
unfolding blob_path
delete root cache_key disk = remove (blob_path root cache_key) disk

unfoldable pub touch_ttl : ℕ → String → String → Disk → Disk
unfolding blob_path
touch_ttl now root cache_key disk =
    let path = blob_path root cache_key in
    elim (get path disk) [
      | none ↦ disk
      | some st ↦ put path (record st { ctime = now; mtime = now }) disk
    ]
