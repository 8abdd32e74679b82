-- ===== src/Jobs/Dedupe.antt =====
-- services/jobs/service.py: the dedupe keys of the records, under the steps of the service.
use mix_saving_bot.Common.{
  ℕ, String, ◌≡◌, refl, ◌≢◌, inl, inr, Bool, true, false, ◌&&◌, Option, none, some, List, [], ◌∷◌,
  arith, eq_iff, ◌==◌, Bool-cases, Option-cases, string_eq, nat_eq,
}
use mix_saving_bot.Jobs.Waiter.{Waiter}
use mix_saving_bot.Common.Dict.{get, get-put}
use mix_saving_bot.Contracts.{
  running, JobOutputRef, queued, JobRecord, SubmitDownloadRequest, is_active,
}
use mix_saving_bot.Jobs.Repository.{Repo, save, find_active_by_dedupe, has_dedupe, make_job_record}
use mix_saving_bot.Jobs.Service.{
  mark_failed, mark_running, mark_succeeded, mark_canceled, JobService, find_duplicate, submit,
}

-- the record is queued or running, under this dedupe key
abbrev pub is_holder : String → JobRecord → Bool
is_holder key r = has_dedupe key r && is_active r.status

-- A record is stored under its own id, and at most one job that is queued or running has a given
-- dedupe key.
pub record IsDeduped (repo : Repo) : Type 0 where
  pub keyed : (i : String) (r : JobRecord) → get i repo ≡ some r → r.job_id ≡ i
  pub single :
      (key i j : String) (r s : JobRecord)
      → get i repo ≡ some r
      → get j repo ≡ some s
      → is_holder key r ≡ true
      → is_holder key s ≡ true
      → key ≢ ""
      → i ≡ j

find_none :
    (key i : String) (r : JobRecord) (repo : Repo)
    → find_active_by_dedupe key repo ≡ none
    → get i repo ≡ some r
    → is_holder key r ≡ false
unfolding find_active_by_dedupe get
find_none key i r [] h e = cc
find_none key i r ((j, s) ∷ rest) h e = ground (arith, find_none key i r rest)

find_some :
    (key : String) (r : JobRecord) (repo : Repo)
    → find_active_by_dedupe key repo ≡ some r
    → is_holder key r ≡ true
unfolding find_active_by_dedupe
find_some key r [] h = cc
find_some key r ((j, s) ∷ rest) h = elim (Bool-cases (is_holder key s)) [
  | inl hit ↦ ground arith
  | inr miss ↦ ground (arith, find_some key r rest)
]

-- Saving a record that no longer holds any key keeps the invariant.
save_idle-IsDeduped :
    (rec : JobRecord) (repo : Repo)
    → is_active rec.status ≡ false
    → IsDeduped repo
    → IsDeduped (save rec repo)
unfolding save
save_idle-IsDeduped rec repo idle d = record {
  keyed = λ i r e. ground (arith, d.keyed i r, get-put rec.job_id i rec repo, eq_iff rec.job_id i);
  single = λ key i j r s e f g h n.
      ground
        (arith, d.single key i j r s, get-put rec.job_id i rec repo, get-put rec.job_id j rec repo);
}

-- A holder after such a save was one before it.
holder_before :
    (rec old : JobRecord) (repo : Repo) (key i : String) (r : JobRecord)
    → get rec.job_id repo ≡ some old
    → is_active old.status ≡ true
    → rec.dedupe_key ≡ old.dedupe_key
    → get i (save rec repo) ≡ some r
    → is_holder key r ≡ true
    → (r' : JobRecord) × (get i repo ≡ some r') × (is_holder key r' ≡ true)
unfolding save
holder_before rec old repo key i r held active same e h = elim (Bool-cases (rec.job_id == i)) [
  | inl hit ↦
      (old, ground (arith, eq_iff rec.job_id i), ground (arith, get-put rec.job_id i rec repo))
  | inr miss ↦ (r, ground (arith, get-put rec.job_id i rec repo), h)
]

-- So does saving a record over one that held the same key.
save_active-IsDeduped :
    (rec old : JobRecord) (repo : Repo)
    → get rec.job_id repo ≡ some old
    → is_active old.status ≡ true
    → rec.dedupe_key ≡ old.dedupe_key
    → IsDeduped repo
    → IsDeduped (save rec repo)
save_active-IsDeduped rec old repo held active same d = record {
  keyed = λ i r e.
      unfold save in
      ground (arith, d.keyed i r, get-put rec.job_id i rec repo, eq_iff rec.job_id i);
  single = λ key i j r s e f g h n.
      let (r', e', g') = holder_before rec old repo key i r held active same e g in
      let (s', f', h') = holder_before rec old repo key j s held active same f h in
      d.single key i j r' s' e' f' g' h' n;
}

-- And saving a new record whose key nobody holds.
save_new-IsDeduped :
    (rec : JobRecord) (repo : Repo)
    → ((key i : String) (r : JobRecord)
        → has_dedupe key rec ≡ true
        → key ≢ ""
        → get i repo ≡ some r
        → is_holder key r ≡ false)
    → IsDeduped repo
    → IsDeduped (save rec repo)
unfolding save
save_new-IsDeduped rec repo nobody d = record {
  keyed = λ i r e. ground (arith, d.keyed i r, get-put rec.job_id i rec repo, eq_iff rec.job_id i);
  single = λ key i j r s e f g h n. ground (
    arith,
    eq_iff rec.job_id i,
    eq_iff rec.job_id j,
    nobody key i r,
    nobody key j s,
    d.single key i j r s,
    get-put rec.job_id i rec repo,
    get-put rec.job_id j rec repo,
  );
}

-- no holder of the key of a request that `submit` found no duplicate of
find_duplicate-none :
    (k : Option String) (repo : Repo) (rec : JobRecord) (key i : String) (r : JobRecord)
    → find_duplicate k repo ≡ none
    → rec.dedupe_key ≡ k
    → has_dedupe key rec ≡ true
    → key ≢ ""
    → get i repo ≡ some r
    → is_holder key r ≡ false
unfolding find_duplicate
find_duplicate-none none repo rec key i r h e m n g = ground arith
find_duplicate-none (some k) repo rec key i r h e m n g =
    ground (arith, eq_iff k "", eq_iff k key, find_none key i r repo)

submit-IsDeduped :
    (now : ℕ) (fresh : String) (req : SubmitDownloadRequest) (k : Option String) (s : JobService)
    → IsDeduped s.repo
    → IsDeduped (submit now fresh req k s).1.repo
unfolding submit
submit-IsDeduped now fresh req k s d = elim (Option-cases (find_duplicate k s.repo)) [
  | inr (r, e) ↦ rw (e, submit) d
  | inl absent ↦
      let rec = make_job_record now fresh queued req k in
      rw (absent, submit)
        (save_new-IsDeduped rec s.repo
          (λ key i r h n g. find_duplicate-none k s.repo rec key i r absent refl h n g) d)
]

-- A step of the service: a call in any state.
pub data Step : JobService → JobService → Type 0 where
  submits :
      (now : ℕ) (fresh : String) (req : SubmitDownloadRequest) (k : Option String) (s : JobService)
      → Step s (submit now fresh req k s).1
  starts : (now : ℕ) (job : String) (s : JobService) → Step s (mark_running now job s)
  succeeds :
      (now : ℕ) (job : String) (outs : List JobOutputRef) (s : JobService)
      → Step s (mark_succeeded now job outs s)
  fails :
      (now : ℕ) (job code message : String) (s : JobService)
      → Step s (mark_failed now job code message s)
  cancels : (now : ℕ) (job : String) (s : JobService) → Step s (mark_canceled now job s)

pub data Reach (s : JobService) : JobService → Type 0 where
  here : Reach s s
  next : {t u : JobService} → Reach s t → Step t u → Reach s u

-- there is no such job, or it is queued or running
abbrev pub is_startable : Option JobRecord → Bool
is_startable none = true
is_startable (some r) = is_active r.status

-- a call that starts a job finds it startable
abbrev pub IsProper : {s t : JobService} → Step s t → Type 0
IsProper (starts now job s) = is_startable (get job s.repo) ≡ true
IsProper (submits now fresh req k s) = Unit
IsProper (succeeds now job outs s) = Unit
IsProper (fails now job code message s) = Unit
IsProper (cancels now job s) = Unit

-- and so do all calls on the way
abbrev pub AllProper : {s t : JobService} → Reach s t → Type 0
AllProper here = Unit
AllProper (next r st) = AllProper r × IsProper st

starts-IsDeduped :
    (now : ℕ) (job : String) (s : JobService)
    → is_startable (get job s.repo) ≡ true
    → IsDeduped s.repo
    → IsDeduped (mark_running now job s).repo
unfolding mark_running
starts-IsDeduped now job s a d = elim (Option-cases (get job s.repo)) [
  | inl e ↦ rw (e, mark_running) d
  | inr (r, e) ↦
      rw (e, mark_running)
        (save_active-IsDeduped (record r { status = running; updated_at_unix = now }) r s.repo
          (ground (arith, d.keyed job r)) (ground (arith, a, e)) refl d)
]

succeeds-IsDeduped :
    (now : ℕ) (job : String) (outs : List JobOutputRef) (s : JobService)
    → IsDeduped s.repo
    → IsDeduped (mark_succeeded now job outs s).repo
unfolding mark_succeeded
succeeds-IsDeduped now job outs s d = elim (Option-cases (get job s.repo)) [
  | inl e ↦ rw (e, mark_succeeded) d
  | inr (r, e) ↦ rw (e, mark_succeeded) (save_idle-IsDeduped _ s.repo refl d)
]

fails-IsDeduped :
    (now : ℕ) (job code message : String) (s : JobService)
    → IsDeduped s.repo
    → IsDeduped (mark_failed now job code message s).repo
unfolding mark_failed
fails-IsDeduped now job code message s d = elim (Option-cases (get job s.repo)) [
  | inl e ↦ rw (e, mark_failed) d
  | inr (r, e) ↦ rw (e, mark_failed) (save_idle-IsDeduped _ s.repo refl d)
]

cancels-IsDeduped :
    (now : ℕ) (job : String) (s : JobService)
    → IsDeduped s.repo
    → IsDeduped (mark_canceled now job s).repo
unfolding mark_canceled
cancels-IsDeduped now job s d = elim (Option-cases (get job s.repo)) [
  | inl e ↦ rw (e, mark_canceled) d
  | inr (r, e) ↦ rw (e, mark_canceled) (save_idle-IsDeduped _ s.repo refl d)
]

Step-IsDeduped :
    {s t : JobService} (st : Step s t) → IsProper st → IsDeduped s.repo → IsDeduped t.repo
Step-IsDeduped (submits now fresh req k s) p d = submit-IsDeduped now fresh req k s d
Step-IsDeduped (starts now job s) p d = starts-IsDeduped now job s p d
Step-IsDeduped (succeeds now job outs s) p d = succeeds-IsDeduped now job outs s d
Step-IsDeduped (fails now job code message s) p d = fails-IsDeduped now job code message s d
Step-IsDeduped (cancels now job s) p d = cancels-IsDeduped now job s d

abbrev pub start : Option Waiter → JobService
start waiter = record { repo = []; waiter = waiter }

start-IsDeduped : (waiter : Option Waiter) → IsDeduped (start waiter).repo
unfolding get
start-IsDeduped waiter = record { keyed = λ i r e. cc; single = λ key i j r s e f g h n. cc }

-- Whatever calls of the service have been made from its empty start, as long as `mark_running` is
-- only called for a job that is queued, running or unknown, each record is stored under its own id,
-- and no two jobs that are queued or running have the same non-empty dedupe key.
pub Reach-IsDeduped :
    {waiter : Option Waiter} {s : JobService} (r : Reach (start waiter) s)
    → AllProper r
    → IsDeduped s.repo
Reach-IsDeduped {waiter} here p = start-IsDeduped waiter
Reach-IsDeduped (next r st) p = Step-IsDeduped st p.1 (Reach-IsDeduped r p.0)
