-- ===== src/Tests/Dedupe.antt =====
-- The theorems of `Dedupe` on concrete data.
use mix_saving_bot.Common.{◌≡◌, refl, true, false, none, some, List, [], ◌∷◌, string_eq, nat_eq}
use mix_saving_bot.Common.Exec.{ok}
use mix_saving_bot.Dedupe.Pipeline.{submit_download, key_of}
use mix_saving_bot.Common.Dict.{get}
use mix_saving_bot.Dedupe.Cache.{try_reserve, JsonLibrary, init, duplicate, object}
use mix_saving_bot.Dedupe.Exclusion.{run, Op, reserves, commits, asks, aborts}
use mix_saving_bot.Dedupe.Reservations.{all_keep, reserved_once}
use mix_saving_bot.Dedupe.Entry.{holder_after, holder, submit_download-holder}
use mix_saving_bot.Queue.Manager.{init as queue_init}

-- each line is its key
abbrev pub json_library : JsonLibrary
json_library = record {
  loads = λ line. object (some line);
  dumps = λ key. key;
  sha256_hex = λ s. s;
}

abbrev others : List Op
others = asks false "k1" ∷ reserves true "k2" "j2" ∷ commits none "k2" ∷ aborts "k3" ∷ []

reserved_once_example :
    (try_reserve json_library false "k1" "j9"
      (run json_library (try_reserve json_library false "k1" "j1" (init true none)).1 others)).0
    ≡ ok duplicate
unfolding try_reserve all_keep get
reserved_once_example =
    reserved_once json_library "k1" false false "j1" "j9" (init true none) others refl refl

submit_download-holder_example :
    holder
      (key_of json_library "u" "audio")
      (submit_download json_library false "j1" 5 "u" "audio"
        (record { queue = queue_init 1 300; cache = some (init false none) })).1
    ≡ holder_after "j1"
        (submit_download json_library false "j1" 5 "u" "audio"
          (record { queue = queue_init 1 300; cache = some (init false none) })).0
unfolding try_reserve get
submit_download-holder_example =
    submit_download-holder json_library false "j1" 5 "u" "audio" (init false none)
      (queue_init 1 300) refl
