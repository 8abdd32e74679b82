-- ===== src/Library/Cleanup.antt =====
-- services/downloader.py: `cleanup_work_dir`, which the caller of `download_video` owes the directory
-- that the call has made.
use mix_saving_bot.Common.{
  String, ◌≡◌, ap, ◌∙◌, Bool, true, false, not, ◌&&◌, Option, none, List, ◌∷◌, eq_refl,
  if◌then◌else◌, ◌==◌, string_eq, nat_eq,
}
use mix_saving_bot.Library.Download.{Ran}
use mix_saving_bot.Engine.Probe.{without_tree-absent}
use mix_saving_bot.Library.Download.{Ran, download_video}
use mix_saving_bot.Library.Directories.{download_video-Left, Left, Usual}
use mix_saving_bot.Engine.Files.{Files}
use mix_saving_bot.Text.{elem}
use mix_saving_bot.Common.Exec.{Result, Exec, ok, raised}
use mix_saving_bot.Engine.Errors.{Error, value_error, os_error}
use mix_saving_bot.Engine.Download.{Engine, Places, is_prefix, without_tree}

unfoldable pub cleanup_work_dir : Places → Bool → String → Exec Error (List String) (Unit {0})
cleanup_work_dir pl strict work_dir dirs =
    let root = pl.resolve work_dir in
    if strict && not (is_prefix (pl.parts (pl.resolve pl.temp_dir)) (pl.parts root))
    then (raised value_error, dirs)
    else if elem root dirs
    then if pl.rmtree_fails then (raised os_error, dirs) else (ok tt, without_tree root dirs)
    else (ok tt, dirs)

-- what the caller does: on success it cleans up the directory of the result
abbrev pub used : Places → Ran → Result Error (Unit {0}) × List String
used pl (raised x, after) = (ok tt, after)
used pl (ok r, after) = cleanup_work_dir pl true r.work_dir after

-- the directory is below that for temporary files, and it can be removed
pub record IsTemporary (pl : Places) (dir : String) : Type 0 where
  pub resolved : pl.resolve dir ≡ dir
  pub inside : is_prefix (pl.parts (pl.resolve pl.temp_dir)) (pl.parts dir) ≡ true
  pub removable : pl.rmtree_fails ≡ false

module _ (pl : Places) (base : String) (dirs : List String) (fresh : elem base dirs ≡ false)
    (t : IsTemporary pl base) where
  cleanup_fresh : cleanup_work_dir pl true base (base ∷ dirs) ≡ (ok tt, dirs)
  unfolding cleanup_work_dir
  cleanup_fresh =
      let root = pl.resolve base in
      let same : root ≡ base = t.resolved in
      let below : is_prefix (pl.parts (pl.resolve pl.temp_dir)) (pl.parts root) ≡ true =
        ap (λ d. is_prefix (pl.parts (pl.resolve pl.temp_dir)) (pl.parts d)) same ∙ t.inside in
      let there : (root == base) ≡ true = ap (λ d. d == base) same ∙ eq_refl base in
      let first : (base == root) ≡ true = ap (λ d. base == d) same ∙ eq_refl base in
      let absent : without_tree root dirs ≡ dirs =
        without_tree-absent root dirs (ap (λ d. elem d dirs) same ∙ fresh) in
      simp (below, t.removable, there, first) (ap (λ l. (ok tt, l)) absent)

  used-Left : (fs : Files) (r : Ran) → Left fs base dirs r → used pl r ≡ (ok tt, dirs)
  used-Left fs (raised x, after) h = ap (λ l. (ok tt, l)) h
  used-Left fs (ok r, after) (left, own, there) = rw left (rw own cleanup_fresh)

-- Without a given directory, `download_video` makes one. Where yt-dlp returns an object or raises,
-- and the directory is new, can be made, is for temporary files and can be removed: it removes it
-- where it raises, and leaves it, with the file that it returns, where it does not. After the caller
-- has cleaned up the directory of the result, there are the directories that there were before.
pub download_video-cleanup_work_dir :
    (e : Engine) (pl : Places) (mkdtemp url : String) (config : Option String) (dirs : List String)
    → Usual e mkdtemp dirs
    → IsTemporary pl (e.files.resolve mkdtemp)
    → Left e.files (e.files.resolve mkdtemp) dirs (download_video e mkdtemp url none config dirs)
      × (used pl (download_video e mkdtemp url none config dirs) ≡ (ok tt, dirs))
download_video-cleanup_work_dir e pl mkdtemp url config dirs u t =
    let left = download_video-Left e mkdtemp url config dirs u in
    (left, used-Left pl (e.files.resolve mkdtemp) dirs u.fresh t e.files _ left)
