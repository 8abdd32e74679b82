-- ===== src/Dedupe/Reservations.antt =====
-- services/dedupe_cache.py: what a reservation and a commit promise, whatever the other jobs do and
-- whenever the disk fails.
use mix_saving_bot.Common.{
  String, ◌≡◌, refl, inl, inr, Bool, true, false, not, ◌&&◌, Option, some, List, [], ◌∷◌, arith,
  eq_iff, if◌then◌else◌, ◌==◌, Option-cases, string_eq, nat_eq,
}
use mix_saving_bot.Common.Exec.{ok}
use mix_saving_bot.Text.{elem}
use mix_saving_bot.Common.Dict.{get, get-put, get-remove}
use mix_saving_bot.Dedupe.Cache.{
  check_disk, abort, duplicate, reserved, take_key, append_disk_index, try_reserve, is_duplicate,
  commit, JsonLibrary, DownloadCache,
}
use mix_saving_bot.Dedupe.Exclusion.{
  check_disk-in_flight, asks, reserves, commits, aborts, check_disk-free, check_disk-grows,
  check_disk-completed, elem-add, run, Op, step,
}

-- the operation gives up no reservation of `key`
abbrev pub keeps : String → Op → Bool
keeps key (commits torn k) = not (k == key)
keeps key (aborts k) = not (k == key)
keeps key _ = true

unfoldable pub all_keep : String → List Op → Bool
all_keep key [] = true
all_keep key (o ∷ os) = keeps key o && all_keep key os

-- `job_id` has the reservation of `key`
pub record IsHeld (key job_id : String) (c : DownloadCache) : Type 0 where
  pub open' : elem key c.completed ≡ false
  pub holder : get key c.in_flight ≡ some job_id

module _ (lib : JsonLibrary) (key : String) where
  step-IsHeld :
      (a : String) (c : DownloadCache) (o : Op)
      → keeps key o ≡ true
      → IsHeld key a c
      → IsHeld key a (step lib c o)
  unfolding step is_duplicate try_reserve take_key commit abort append_disk_index
  step-IsHeld a c (asks e k) h v = record {
    open' = ground (arith, v.open', v.holder, check_disk-completed lib e k c key, eq_iff key k);
    holder = ground (arith, v.holder, check_disk-in_flight lib e k c);
  }
  step-IsHeld a c (reserves e k b) h v = record {
    open' = ground (arith, v.open', v.holder, check_disk-completed lib e k c key, eq_iff key k);
    holder = ground (
      arith,
      v.holder,
      check_disk-in_flight lib e k c,
      get-put k key b c.in_flight,
      eq_iff key k,
      eq_iff k key,
    );
  }
  step-IsHeld a c (commits torn k) h v = record {
    open' = ground (arith, v.open', h, elem-add k key c.completed, eq_iff key k, eq_iff k key);
    holder = ground (arith, v.holder, h, get-remove k key c.in_flight, eq_iff key k, eq_iff k key);
  }
  step-IsHeld a c (aborts k) h v = record {
    open' = v.open';
    holder = ground (arith, v.holder, h, get-remove k key c.in_flight, eq_iff key k, eq_iff k key);
  }

  run-IsHeld :
      (a : String) (c : DownloadCache) (os : List Op)
      → all_keep key os ≡ true
      → IsHeld key a c
      → IsHeld key a (run lib c os)
  unfolding run all_keep
  run-IsHeld a c [] h v = v
  run-IsHeld a c (o ∷ os) h v =
      run-IsHeld a (step lib c o) os (ground (arith, h)) (step-IsHeld a c o (ground (arith, h)) v)

  pub try_reserve-IsHeld :
      (e : Bool) (a : String) (c : DownloadCache)
      → (try_reserve lib e key a c).0 ≡ ok reserved
      → IsHeld key a (try_reserve lib e key a c).1
  unfolding try_reserve take_key
  try_reserve-IsHeld e a c h = record {
    open' = ground (arith, h, check_disk-completed lib e key c key, check_disk-free lib e key c);
    holder = elim (Option-cases (get key c.in_flight)) [
      | inl free ↦
          ground
            (arith, h, free, get-put key key a (check_disk lib e key c).1.in_flight, eq_iff key key)
      | inr (b, taken) ↦ ground (arith, h, taken, eq_iff b a)
    ];
  }

  pub try_reserve-held :
      (e : Bool) (a b : String) (c : DownloadCache)
      → IsHeld key a c
      → (try_reserve lib e key b c).0 ≡ ok (if a == b then reserved else duplicate)
  unfolding try_reserve
  try_reserve-held e a b c v = ground (arith, v.open', v.holder)

  -- Once a job has reserved a key, and as long as nobody commits or aborts that key, every further
  -- reservation of it is refused to any other job and granted again to the same job, whatever else
  -- happens in between and whenever the disk fails.
  pub reserved_once :
      (e f : Bool) (a b : String) (c : DownloadCache) (os : List Op)
      → (try_reserve lib e key a c).0 ≡ ok reserved
      → all_keep key os ≡ true
      → (try_reserve lib f key b (run lib (try_reserve lib e key a c).1 os)).0
        ≡ ok (if a == b then reserved else duplicate)
  reserved_once e f a b c os h k =
      try_reserve-held f a b (run lib (try_reserve lib e key a c).1 os)
        (run-IsHeld a (try_reserve lib e key a c).1 os k (try_reserve-IsHeld e a c h))

  pub step-completed :
      (c : DownloadCache) (o : Op)
      → elem key c.completed ≡ true
      → elem key (step lib c o).completed ≡ true
  unfolding step is_duplicate try_reserve take_key commit abort append_disk_index
  step-completed c (asks e k) h = ground (arith, h, check_disk-grows lib e k c key)
  step-completed c (reserves e k b) h = ground (arith, h, check_disk-grows lib e k c key)
  step-completed c (commits torn k) h = ground (arith, h, elem-add k key c.completed)
  step-completed c (aborts k) h = h

  run-completed :
      (c : DownloadCache) (os : List Op)
      → elem key c.completed ≡ true
      → elem key (run lib c os).completed ≡ true
  unfolding run
  run-completed c [] h = h
  run-completed c (o ∷ os) h = run-completed (step lib c o) os (step-completed c o h)

  commit-completed :
      (torn : Option (List String)) (c : DownloadCache)
      → elem key (commit lib torn key c).completed ≡ true
  unfolding commit append_disk_index
  commit-completed torn c = ground (arith, elem-add key key c.completed, eq_iff key key)

  -- Once a key is committed, even if its line could not be written to the index, every later
  -- reservation of it is refused to every job, whatever happens in between.
  committed_for_good :
      (torn : Option (List String)) (e : Bool) (b : String) (c : DownloadCache) (os : List Op)
      → (try_reserve lib e key b (run lib (commit lib torn key c) os)).0 ≡ ok duplicate
  unfolding try_reserve
  committed_for_good torn e b c os =
      rw (run-completed (commit lib torn key c) os (commit-completed torn c)) refl
