-- ===== src/Storage/Store.antt =====
-- services/cache/file_cache.py: `FileCacheStore` as the cache that the worker takes.
use mix_saving_bot.Common.{
  ℕ, suc, String, ◌≡◌, refl, ap, inl, inr, Bool, true, false, Option, none, some, arith, eq_iff,
  ◌==◌, Bool-cases, Option-cases, string_eq, nat_eq,
}
use mix_saving_bot.Runner.Saved.{Remembers}
use mix_saving_bot.Contracts.{CacheEntry}
use mix_saving_bot.Common.Exec.{Result, ok, raised}
use mix_saving_bot.Storage.FileCache
use mix_saving_bot.Storage.FileCache.{
  stat_entry, put_blob, blob_path, Stat, Disk, put_from_path, get_entry,
}
use mix_saving_bot.Runner.World.{Exn, os_error}
use mix_saving_bot.Common.Dict.{put, get, get-put}
use mix_saving_bot.Runner.World.{CacheStore}

-- the disk, and how many times a file was put
pub record Store : Type 0 where
  pub disk : Disk
  pub puts : ℕ

-- the worker's `except Exception` treats the two exceptions alike
abbrev pub as_raised : Result FileCache.Exn CacheEntry → Result Exn CacheEntry
as_raised (ok e) = ok e
as_raised (raised x) = raised os_error

as_found : Option CacheEntry → Result Exn (Option CacheEntry)
as_found o = ok o

-- what an answer finds
found_in : Result Exn (Option CacheEntry) → Option CacheEntry
found_in (ok o) = o
found_in (raised x) = none

-- whether the n-th link and copy fail, and the time of the n-th put
module _ (fails : ℕ → Bool) (now : ℕ → ℕ) (root : String) where
  unfoldable pub put_in : String → String → Store → Result Exn CacheEntry × Store
  put_in key path s =
      let p = put_from_path (fails s.puts) (now s.puts) root key path s.disk in
      (as_raised p.0, record { disk = p.1; puts = suc s.puts })

  abbrev pub file_store : CacheStore
  file_store = record {
    State = Store;
    get = λ key s. ok (get_entry root key s.disk);
    put_from_path = put_in;
  }

  -- there is a file at the key's path
  abbrev Stored : String → Store → Type 0
  Stored key s = (st : Stat) × (get (blob_path root key) s.disk ≡ some st)

  -- what is put at another path, or on top of a file, leaves a file at the key's path
  put-Stored :
      (key : String) (path : String) (new : Stat) (s : Disk)
      → (st : Stat) × (get (blob_path root key) s ≡ some st)
      → (st : Stat) × (get (blob_path root key) (put path new s) ≡ some st)
  put-Stored key path new s (st, e) = elim (Bool-cases (path == blob_path root key)) [
    | inl same ↦ (new, ground (arith, get-put path (blob_path root key) new s, same))
    | inr other ↦ (st, ground (arith, get-put path (blob_path root key) new s, other, e))
  ]

  put_blob-Stored :
      (fail : Bool) (n : ℕ) (key k dest : String) (src : Stat) (d : Disk)
      → (st : Stat) × (get (blob_path root key) d ≡ some st)
      → (st : Stat) × (get (blob_path root key) (put_blob fail n k dest src d).1 ≡ some st)
  unfolding put_blob
  put_blob-Stored true n key k dest src d h = h
  put_blob-Stored false n key k dest src d h = put-Stored key dest _ d h

  put_from_path_gone :
      (fail : Bool) (n : ℕ) (key path : String) (d : Disk)
      → get path d ≡ none
      → put_from_path fail n root key path d ≡ (raised FileCache.file_not_found, d)
  unfolding put_from_path
  put_from_path_gone fail n key path d gone = rw (gone, put_from_path) refl

  put_from_path_new :
      (fail : Bool) (n : ℕ) (key path : String) (d : Disk) (src : Stat)
      → get path d ≡ some src
      → get (blob_path root key) d ≡ none
      → put_from_path fail n root key path d ≡ put_blob fail n key (blob_path root key) src d
  unfolding put_from_path
  put_from_path_new fail n key path d src there free =
      rw (there, put_from_path) (rw (free, put_from_path) refl)

  put_in-keeps : (key k path : String) (s : Store) → Stored key s → Stored key (put_in k path s).1
  unfolding put_in put_from_path
  put_in-keeps key k path s h = elim (Option-cases (get path s.disk)) [
    | inl gone ↦ rw (gone, put_from_path) h
    | inr (src, there) ↦ elim (Option-cases (get (blob_path root k) s.disk)) [
      | inl free ↦
          rw (there, put_from_path)
            (rw (free, put_from_path)
              (put_blob-Stored (fails s.puts) (now s.puts) key k _ src s.disk h))
      | inr (old, kept) ↦ rw (there, put_from_path) (rw (kept, put_from_path) h)
    ]
  ]

  put_blob-has :
      (fail : Bool) (n : ℕ) (key : String) (src : Stat) (d : Disk) (e : CacheEntry)
      → as_raised (put_blob fail n key (blob_path root key) src d).0 ≡ ok e
      → (st : Stat) × (get (blob_path root key) (put_blob fail n key (blob_path root key) src d).1
          ≡ some st)
  unfolding put_blob
  put_blob-has true n key src d e h = absurd (cc h)
  put_blob-has false n key src d e h = (
    record { size = src.size; ctime = n; mtime = src.mtime },
    ground (
      arith,
      get-put (blob_path root key) (blob_path root key)
          (record { size = src.size; ctime = n; mtime = src.mtime }) d,
      eq_iff (blob_path root key) (blob_path root key),
    ),
  )

  put_from_path_old :
      (fail : Bool) (n : ℕ) (key path : String) (d : Disk) (src old : Stat)
      → get path d ≡ some src
      → get (blob_path root key) d ≡ some old
      → put_from_path fail n root key path d ≡ (ok (stat_entry key (blob_path root key) old), d)
  unfolding put_from_path
  put_from_path_old fail n key path d src old there kept =
      rw (there, put_from_path) (rw (kept, put_from_path) refl)

  put_in-has :
      (key path : String) (s : Store) (e : CacheEntry)
      → (put_in key path s).0 ≡ ok e
      → Stored key (put_in key path s).1
  unfolding put_in
  put_in-has key path s e h = elim (Option-cases (get path s.disk)) [
    | inl gone ↦ absurd (
        cc (
          h,
          ap (λ p. as_raised p.0)
              (put_from_path_gone (fails s.puts) (now s.puts) key path s.disk gone),
        ))
    | inr (src, there) ↦ elim (Option-cases (get (blob_path root key) s.disk)) [
      | inl free ↦
          let same = put_from_path_new (fails s.puts) (now s.puts) key path s.disk src there free in
          rw same (
            put_blob-has (fails s.puts) (now s.puts) key src s.disk e
              (cc (ap (λ p. as_raised p.0) same, h)))
      | inr (old, kept) ↦
          rw (put_from_path_old (fails s.puts) (now s.puts) key path s.disk src old there kept)
            (old, kept)
    ]
  ]

  get_entry-none :
      (key : String) (s : Store)
      → get (blob_path root key) s.disk ≡ none
      → get_entry root key s.disk ≡ none
  unfolding get_entry
  get_entry-none key s gone = ground (arith, gone)

  get_entry-Stored :
      (key : String) (s : Store) (o : Option Stat)
      → get (blob_path root key) s.disk ≡ o
      → (e : CacheEntry) → get_entry root key s.disk ≡ some e
      → Stored key s
  unfolding get_entry
  get_entry-Stored key s none gone e h = absurd (cc (h, get_entry-none key s gone))
  get_entry-Stored key s (some st) there e h = (st, there)

  Stored-get_entry :
      (key : String) (s : Store)
      → Stored key s
      → (e : CacheEntry) × (get_entry root key s.disk ≡ some e)
  unfolding get_entry
  Stored-get_entry key s (st, e) = (stat_entry key (blob_path root key) st, ground (arith, e))

  -- A file that is put is found under its key from then on, whatever else is put.
  pub file_store-Remembers : Remembers file_store
  unfolding found_in as_found
  file_store-Remembers = record {
    Has = Stored;
    put_has = put_in-has;
    put_keeps = put_in-keeps;
    get_has = λ key s e h. get_entry-Stored key s _ refl e (ap found_in h);
    has_get = λ key s h. let (e, found) = Stored-get_entry key s h in (e, ap (as_found) found);
  }
