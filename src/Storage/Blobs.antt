-- ===== src/Storage/Blobs.antt =====
-- services/cache/file_cache.py: a file that is put, looked up and deleted.
use mix_saving_bot.Common.{
  ℕ, String, ◌≡◌, inl, inr, Bool, Option, none, some, arith, eq_iff, Option-cases, string_eq,
  nat_eq,
}
use mix_saving_bot.Common.Dict.{get, get-put, get-remove}
use mix_saving_bot.Common.Exec.{ok}
use mix_saving_bot.Contracts.{CacheEntry}
use mix_saving_bot.Storage.FileCache.{
  Stat, Disk, put_from_path, put_blob, get_entry, delete, blob_path,
}

-- the path and the size under which an entry is found again
abbrev pub found_again : Option CacheEntry → Option (String × ℕ)
found_again none = none
found_again (some e) = some (e.local_path, e.byte_size)

-- If `put_from_path` returns an entry, `get` of the same key right afterwards finds a file with that
-- entry's path and size; after a `delete` of the key it finds nothing.
pub get_entry-put_from_path :
    (fails : Bool) (now : ℕ) (root key src : String) (disk : Disk) (entry : CacheEntry)
    → (put_from_path fails now root key src disk).0 ≡ ok entry
    → (found_again (get_entry root key (put_from_path fails now root key src disk).1)
        ≡ some (entry.local_path, entry.byte_size))
      × (get_entry root key (delete root key (put_from_path fails now root key src disk).1) ≡ none)
unfolding put_from_path put_blob get_entry delete
get_entry-put_from_path fails now root key src disk entry h =
    let path = blob_path root key in
    elim (Option-cases (get src disk)) [
      | inl gone ↦ ground (arith, h, gone)
      | inr (st, there) ↦
          let new : Stat = record { size = st.size; ctime = now; mtime = st.mtime } in
          (
            ground (arith, h, there, get-put path path new disk, eq_iff path path),
            ground (
              arith,
              h,
              there,
              get-remove path path (put_from_path fails now root key src disk).1,
              eq_iff path path,
            ),
          )
    ]
