-- ===== src/Dedupe/Cache.antt =====
-- services/dedupe_cache.py: `DownloadCache`. The index file is the list of its lines; whether the
-- system refuses to read or write it is an argument of each call. JSON and SHA-256 are parameters.
use mix_saving_bot.Text.{strip, elem}
use mix_saving_bot.Common.Exec.{raised, ok, Result, Exec}
use mix_saving_bot.Common.{
  String, Bool, true, false, ◌&&◌, ◌||◌, Option, none, some, List, [], ◌∷◌, ◌++◌, if◌then◌else◌,
  ◌==◌, string_eq, nat_eq,
}
use Prim.Native.String.{◌++◌ as ◌+s◌}
use mix_saving_bot.Common.Dict.{Dict, get, put, remove}

pub data Exn : Type 0 where
  attribute_error : Exn

-- what `json.loads` makes of a line: an object has its "key", if that is a string
pub data Json : Type 0 where
  decode_error : Json
  object : Option String → Json
  other : Json

pub record JsonLibrary : Type 0 where
  pub loads : String → Json
  -- json.dumps({"key": key}, ensure_ascii=False), one line
  pub dumps : String → String
  pub sha256_hex : String → String

pub record DownloadCache : Type 0 where
  pub completed : List String
  pub in_flight : Dict String String
  pub has_index : Bool
  pub disk_enabled : Bool
  pub file : Option (List String)

abbrev pub init : Bool → Option (List String) → DownloadCache
init has_index file = record {
  completed = [];
  in_flight = [];
  has_index = has_index;
  disk_enabled = has_index;
  file = file;
}

pub data Reservation : Type 0 where
  reserved duplicate : Reservation

-- payload.get("url") or payload.get("source_url") or ""
abbrev pub text_or : Option String → String → String
text_or none d = d
text_or (some s) d = if s == "" then d else s

unfoldable pub default_dedupe_key :
    JsonLibrary → Option String → Option String → Option String → Option String → String
default_dedupe_key lib url source_url mix_id media = lib.sha256_hex (
    text_or url (text_or source_url "")
    +s ("\n" +s (text_or mix_id "" +s ("\n" +s text_or media ""))))

-- set.add
abbrev pub add : String → List String → List String
add k s = if elem k s then s else k ∷ s

abbrev pub is_some : Option String → Bool
is_some none = false
is_some (some s) = true

-- the loop of `_key_on_disk_index`; a line that is JSON but no object has no `get`
unfoldable pub find_key : JsonLibrary → String → List String → Result Exn Bool
find_key lib key [] = ok false
find_key lib key (l ∷ ls) =
    let rest = find_key lib key ls in
    let line = strip l in
    if line == "" then rest else elim (lib.loads line) [
      | decode_error ↦ rest
      | object none ↦ rest
      | object (some k) ↦ if k == key then ok true else rest
      | other ↦ raised attribute_error
    ]

unfoldable pub key_on_disk_index : JsonLibrary → String → DownloadCache → Result Exn Bool
unfolding find_key
key_on_disk_index lib key c = elim c.file [ none ↦ ok false | some ls ↦ find_key lib key ls ]

-- the test of the index in `is_duplicate` and `try_reserve`; an `OSError` turns the index off
unfoldable pub check_disk : JsonLibrary → Bool → String → Exec Exn DownloadCache Bool
unfolding key_on_disk_index
check_disk lib os_error key c =
    if c.has_index && c.disk_enabled
    then if os_error
      then (ok false, record c { disk_enabled = false })
      else elim (key_on_disk_index lib key c) [
        | ok true ↦ (ok true, record c { completed = add key c.completed })
        | ok false ↦ (ok false, c)
        | raised x ↦ (raised x, c)
      ]
    else (ok false, c)

unfoldable pub is_duplicate : JsonLibrary → Bool → String → Exec Exn DownloadCache Bool
unfolding check_disk
is_duplicate lib os_error key c =
    if elem key c.completed || is_some (get key c.in_flight)
    then (ok true, c)
    else check_disk lib os_error key c

-- self._in_flight[key] = job_id, unless the index knows the key
unfoldable pub take_key :
    String → String → Result Exn Bool × DownloadCache → Result Exn Reservation × DownloadCache
take_key key job_id (ok true, c) = (ok duplicate, c)
take_key key job_id (ok false, c) =
    (ok reserved, record c { in_flight = put key job_id c.in_flight })
take_key key job_id (raised x, c) = (raised x, c)

unfoldable pub try_reserve :
    JsonLibrary → Bool → String → String → Exec Exn DownloadCache Reservation
unfolding check_disk take_key
try_reserve lib os_error key job_id c =
    if elem key c.completed then (ok duplicate, c) else elim (get key c.in_flight) [
      | some holder ↦ (ok (if holder == job_id then reserved else duplicate), c)
      | none ↦ take_key key job_id (check_disk lib os_error key c)
    ]

-- what `_append_disk_index` leaves in the file; `torn` is what a failed write leaves there
unfoldable pub append_disk_index :
    JsonLibrary → Option (List String) → String → DownloadCache → DownloadCache
append_disk_index lib (some torn) key c = record c { file = some torn; disk_enabled = false }
append_disk_index lib none key c = record c {
  file = some (elim c.file [ none ↦ [] | some ls ↦ ls ] ++ lib.dumps key ∷ []);
}

unfoldable pub commit : JsonLibrary → Option (List String) → String → DownloadCache → DownloadCache
unfolding append_disk_index
commit lib torn key c =
    let c' = record c { in_flight = remove key c.in_flight; completed = add key c.completed } in
    if c.has_index && c.disk_enabled then append_disk_index lib torn key c' else c'

unfoldable pub mark_complete :
    JsonLibrary → Option (List String) → String → DownloadCache → DownloadCache
unfolding commit
mark_complete lib torn key c = commit lib torn key c

unfoldable pub abort : String → DownloadCache → DownloadCache
abort key c = record c { in_flight = remove key c.in_flight }

unfoldable pub reset_memory : DownloadCache → DownloadCache
reset_memory c = record c { completed = []; in_flight = [] }
