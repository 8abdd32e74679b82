-- ===== src/Dedupe/Exclusion.antt =====
-- services/dedupe_cache.py: the calls on the cache, and the finished and the reserved keys.
use mix_saving_bot.Common.{
  String, ◌≡◌, refl, ◌⊎◌, Bool, true, false, ◌||◌, Option, none, List, [], ◌∷◌, arith, eq_iff, ◌==◌,
  string_eq, nat_eq,
}
use mix_saving_bot.Common.Exec.{ok}
use mix_saving_bot.Text.{elem}
use mix_saving_bot.Common.Dict.{get, get-put, get-remove}
use mix_saving_bot.Dedupe.Cache.{
  init, append_disk_index, take_key, abort, commit, try_reserve, add, check_disk, is_duplicate,
  JsonLibrary, DownloadCache,
}

pub data Op : Type 0 where
  asks : Bool → String → Op
  reserves : Bool → String → String → Op
  commits : Option (List String) → String → Op
  aborts : String → Op

-- the state after an operation, whether it returns or raises
unfoldable pub step : JsonLibrary → DownloadCache → Op → DownloadCache
unfolding is_duplicate try_reserve commit abort
step lib c (asks os_error key) = (is_duplicate lib os_error key c).1
step lib c (reserves os_error key job_id) = (try_reserve lib os_error key job_id c).1
step lib c (commits torn key) = commit lib torn key c
step lib c (aborts key) = abort key c

unfoldable pub run : JsonLibrary → DownloadCache → List Op → DownloadCache
unfolding step
run lib c [] = c
run lib c (o ∷ os) = run lib (step lib c o) os

-- no key is both finished and being worked on
pub record IsExclusive (c : DownloadCache) : Type 0 where
  pub apart : (key : String) → elem key c.completed ≡ true → get key c.in_flight ≡ none

pub elem-add : (k j : String) (s : List String) → elem j (add k s) ≡ (j == k || elem j s)
elem-add k j s = ground (arith, eq_iff j k)

module _ (lib : JsonLibrary) (e : Bool) (key : String) (c : DownloadCache) where
  pub check_disk-in_flight : (check_disk lib e key c).1.in_flight ≡ c.in_flight
  unfolding check_disk
  check_disk-in_flight = ground arith

  pub check_disk-completed :
      (j : String)
      → elem j (check_disk lib e key c).1.completed ≡ true
      → (j ≡ key) ⊎ (elem j c.completed ≡ true)
  unfolding check_disk
  check_disk-completed j h = ground (arith, elem-add key j c.completed, eq_iff j key)

  pub check_disk-grows :
      (j : String) → elem j c.completed ≡ true → elem j (check_disk lib e key c).1.completed ≡ true
  unfolding check_disk
  check_disk-grows j h = ground (arith, elem-add key j c.completed)

  pub check_disk-free :
      (check_disk lib e key c).0 ≡ ok false → (check_disk lib e key c).1.completed ≡ c.completed
  unfolding check_disk
  check_disk-free h = ground (arith, h)

  -- the key is taken only if it was free
  IsExclusive-is_duplicate : IsExclusive c → IsExclusive (is_duplicate lib e key c).1
  unfolding is_duplicate
  IsExclusive-is_duplicate v = record {
    apart = λ k h. ground (arith, v.apart k, check_disk-in_flight, check_disk-completed k, h);
  }

  IsExclusive-commit :
      (torn : Option (List String)) → IsExclusive c → IsExclusive (commit lib torn key c)
  unfolding commit append_disk_index
  IsExclusive-commit torn v = record {
    apart = λ k h. ground (
      arith,
      v.apart k,
      get-remove key k c.in_flight,
      elem-add key k c.completed,
      eq_iff k key,
      eq_iff key k,
      h,
    );
  }

  IsExclusive-abort : IsExclusive c → IsExclusive (abort key c)
  unfolding abort
  IsExclusive-abort v = record {
    apart = λ k h. ground (arith, v.apart k, get-remove key k c.in_flight, h);
  }

  IsExclusive-try_reserve :
      (job_id : String) → IsExclusive c → IsExclusive (try_reserve lib e key job_id c).1
  unfolding try_reserve take_key
  IsExclusive-try_reserve job_id v = record {
    apart = λ k h. ground (
      arith,
      v.apart k,
      check_disk-in_flight,
      check_disk-completed k,
      check_disk-free,
      get-put key k job_id (check_disk lib e key c).1.in_flight,
      eq_iff k key,
      eq_iff key k,
      h,
    );
  }

module _ (lib : JsonLibrary) where
  step-IsExclusive : (c : DownloadCache) (o : Op) → IsExclusive c → IsExclusive (step lib c o)
  unfolding step
  step-IsExclusive c (asks e key) v = IsExclusive-is_duplicate lib e key c v
  step-IsExclusive c (reserves e key job_id) v = IsExclusive-try_reserve lib e key c job_id v
  step-IsExclusive c (commits torn key) v = IsExclusive-commit lib false key c torn v
  step-IsExclusive c (aborts key) v = IsExclusive-abort lib false key c v

  run-IsExclusive : (c : DownloadCache) (os : List Op) → IsExclusive c → IsExclusive (run lib c os)
  unfolding run
  run-IsExclusive c [] v = v
  run-IsExclusive c (o ∷ os) v = run-IsExclusive (step lib c o) os (step-IsExclusive c o v)

  -- From a start with an empty memory and any index file, after any sequence of calls and disk
  -- failures, no key is both marked as completed and reserved.
  run-init-IsExclusive :
      (has_index : Bool) (file : Option (List String)) (os : List Op)
      → IsExclusive (run lib (init has_index file) os)
  unfolding get
  run-init-IsExclusive has_index file os =
      run-IsExclusive (init has_index file) os (record { apart = λ k h. refl })
