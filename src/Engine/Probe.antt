-- ===== src/Engine/Probe.antt =====
-- downloader/yt_dlp_downloader.py: what `probe` leaves and returns.
use mix_saving_bot.Common.{
  ℕ, String, ◌≡◌, refl, ap, inl, inr, Bool, true, false, Option, none, some, List, [], ◌∷◌, arith,
  eq_iff, eq_refl, ltb, leb, ◌==◌, Bool-cases, string_eq, nat_eq,
}
use mix_saving_bot.Common.Dict.{get}
use mix_saving_bot.Common.Exec.{Result, ok, raised, then_do, pure}
use mix_saving_bot.Engine.Files.{Info, Value, number, null, text, downloads}
use mix_saving_bot.Engine.Errors.{Error}
use mix_saving_bot.Engine.Output.{slim_metadata}
use mix_saving_bot.Engine.Download.{is_prefix, without_tree, cleanup_work_dir, extract_info_only}
use mix_saving_bot.Engine.Facade.{
  Exn, Facade, probe, probe_run, after_cleanup, from_engine, too_long, check_url,
}
use mix_saving_bot.Runner.World.{DownloadJobContext}
use mix_saving_bot.Sanitize.{Verdict, accepted, sanitize_error, value_error, validate_for_download}
use mix_saving_bot.Text.{elem}

pub without_tree-absent : (d : String) (l : List String) → elem d l ≡ false → without_tree d l ≡ l
without_tree-absent d [] h = refl
without_tree-absent d (x ∷ l) h = ground (arith, h, eq_iff d x, eq_iff x d, without_tree-absent d l)

pub without_tree-fresh :
    (d : String) (l : List String) → elem d l ≡ false → without_tree d (d ∷ l) ≡ l
without_tree-fresh d l h = rw (eq_refl d) (without_tree-absent d l h)

-- `mkdtemp` makes a new directory below that for temporary files, and it can be removed
pub record Temporary (f : Facade) (dirs : List String) : Type 0 where
  pub fresh : elem f.mkdtemp dirs ≡ false
  pub resolved : f.places.resolve f.mkdtemp ≡ f.mkdtemp
  pub inside :
      is_prefix
        (f.places.parts (f.places.resolve f.places.temp_dir))
        (f.places.parts (f.places.resolve f.mkdtemp))
      ≡ true
  pub removable : f.places.rmtree_fails ≡ false

-- the metadata, if there are any, has no longer duration than is allowed
abbrev pub duration_fits : ℕ → Option Value → Bool
duration_fits most (some (number n)) = leb n most
duration_fits most _ = true

abbrev pub is_short : ℕ → Result Exn Info → Bool
is_short most (ok meta) = duration_fits most (get "duration" meta)
is_short most (raised x) = true

module _ (f : Facade) (ctx : DownloadJobContext) (dirs : List String) (t : Temporary f dirs) where
  abbrev Clean : Result Exn Info × List String → Type 0
  Clean (r, after) = (after ≡ dirs) × (is_short ctx.constraints.max_duration_sec r ≡ true)

  cleaned_up : cleanup_work_dir f.places true f.mkdtemp (f.mkdtemp ∷ dirs) ≡ (ok tt, dirs)
  unfolding cleanup_work_dir
  cleaned_up =
      let root = f.places.resolve f.mkdtemp in
      let found : (root == f.mkdtemp) ≡ true = rw t.resolved (eq_refl f.mkdtemp) in
      let removed : (f.mkdtemp == root) ≡ true = rw t.resolved (eq_refl f.mkdtemp) in
      let absent : without_tree root dirs ≡ dirs =
        without_tree-absent root dirs (rw t.resolved t.fresh) in
      simp (t.inside, t.removable, found, removed) (ap (λ l. (ok tt, l)) absent)

  checked-Clean :
      (info : Info) (o : Option Value)
      → get "duration" (slim_metadata info) ≡ o
      → Clean (then_do (too_long f ctx o dirs) (λ u. pure (slim_metadata info)))
  checked-Clean info none e = (refl, rw e refl)
  checked-Clean info (some null) e = (refl, rw e refl)
  checked-Clean info (some (text s)) e = (refl, rw e refl)
  checked-Clean info (some (downloads l)) e = (refl, rw e refl)
  checked-Clean info (some (number n)) e =
      elim (Bool-cases (ltb ctx.constraints.max_duration_sec n)) [
        | inl long ↦ simp long (refl, refl)
        | inr short ↦ simp (short, e) (refl, ground (arith, short))
      ]

  ran-Clean :
      (r : Result Error Info)
      → Clean (
          then_do (from_engine (after_cleanup r (ok tt, dirs))) (λ info s.
            then_do
              (too_long f ctx (get "duration" (slim_metadata info)) s)
              (λ u. pure (slim_metadata info))))
  ran-Clean (ok info) = checked-Clean info _ refl
  ran-Clean (raised x) = (refl, refl)

  verdict-Clean :
      (v : Verdict)
      → Clean (
          then_do (check_url v dirs) (λ u s. then_do (from_engine (probe_run f ctx s)) (λ info s'.
            then_do
              (too_long f ctx (get "duration" (slim_metadata info)) s')
              (λ u'. pure (slim_metadata info)))))
  unfolding probe_run
  verdict-Clean accepted =
      rw cleaned_up (ran-Clean (extract_info_only f.engine ctx.source_url f.mkdtemp f.config_path))
  verdict-Clean (sanitize_error code message) = (refl, refl)
  verdict-Clean value_error = (refl, refl)

  -- Whatever yt-dlp does, `probe` leaves no directory behind, and metadata that it returns have no
  -- duration above the limit.
  pub probe_cleans :
      ((probe f ctx dirs).1 ≡ dirs)
      × (is_short ctx.constraints.max_duration_sec (probe f ctx dirs).0 ≡ true)
  unfolding probe
  probe_cleans = verdict-Clean (validate_for_download f.engine.lib ctx.source_url ctx.constraints)
