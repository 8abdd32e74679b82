-- ===== src/Library/Directories.antt =====
-- services/downloader.py: the directories that `download_video` and `download_audio` make.
use mix_saving_bot.Common.{
  String, ◌≡◌, refl, ◌≢◌, inl, inr, true, false, ◌&&◌, Option, none, some, List, ◌∷◌, arith, ◌==◌,
  Bool-cases, string_eq, nat_eq,
}
use mix_saving_bot.Common.Exec.{Result, ok, raised}
use mix_saving_bot.Engine.Files.{Files, Info}
use mix_saving_bot.Engine.Errors.{Error}
use mix_saving_bot.Engine.Options.{Opts}
use mix_saving_bot.Engine.Download.{Engine, Extracted, info, not_dict, raw, other_error}
use mix_saving_bot.Engine.Probe.{without_tree-fresh}
use mix_saving_bot.Library.Checks.{validate_http_url}
use mix_saving_bot.Library.Download.{
  Ran, settle_download, closing, locate_video, locate_audio, download_video, download_audio,
  after_check, in_base, base_of, video_opts, audio_opts, checked_video, checked_audio,
}
use mix_saving_bot.Text.{elem, lower}

-- a call that raises leaves the directories as they were, and one that returns leaves its own, with
-- the file
abbrev pub Left : Files → String → List String → Ran → Type 0
Left fs base dirs (raised x, after) = after ≡ dirs
Left fs base dirs (ok r, after) =
    (after ≡ base ∷ dirs) × (r.work_dir ≡ base) × (fs.is_file r.path ≡ true)

abbrev Located : Files → Result Error (String × Info) → Type 0
Located fs (ok (p, metadata)) = fs.is_file p ≡ true
Located fs (raised x) = Unit

checked_video-Located :
    (fs : Files) (i : Info) (o : Option String) → Located fs (checked_video fs i o)
checked_video-Located fs i none = tt
checked_video-Located fs i (some p) = elim (Bool-cases (fs.is_file p)) [
  | inl there ↦ rw there there
  | inr gone ↦ rw gone tt
]

checked_audio-Located :
    (fs : Files) (i : Info) (o : Option String) → Located fs (checked_audio fs i o)
checked_audio-Located fs i none = tt
checked_audio-Located fs i (some p) =
    elim (Bool-cases (fs.is_file p && lower (fs.suffix p) == ".mp3")) [
      | inl good ↦ rw good (ground (arith, good))
      | inr bad ↦ rw bad tt
    ]

module _ (fs : Files) (base : String) (dirs : List String) (fresh : elem base dirs ≡ false) where
  closing-Left :
      (r : Result Error (String × Info))
      → Located fs r
      → Left fs base dirs (closing true base r (base ∷ dirs))
  closing-Left (ok (p, metadata)) h = (refl, refl, h)
  closing-Left (raised x) h = without_tree-fresh base dirs fresh

  settle-Left :
      (locate : Info → Result Error (String × Info)) (x : Extracted)
      → ((i : Info) → Located fs (locate i))
      → x ≢ not_dict
      → Left fs base dirs (settle_download true base locate x (base ∷ dirs))
  unfolding settle_download
  settle-Left locate (info i) h n = closing-Left (locate i) (h i)
  settle-Left locate not_dict h n = absurd (n refl)
  settle-Left locate (raw exc) h n = without_tree-fresh base dirs fresh
  settle-Left locate other_error h n = without_tree-fresh base dirs fresh

  after_check-Left :
      (v : Result Error (Unit {0})) (r : Ran)
      → Left fs base dirs r
      → Left fs base dirs (after_check v r dirs)
  after_check-Left (ok u) r h = h
  after_check-Left (raised x) r h = refl

-- yt-dlp returns an object or raises, and the new directory is new, can be made and can be
-- removed
pub record Usual (e : Engine) (mkdtemp : String) (dirs : List String) : Type 0 where
  pub fresh : elem (e.files.resolve mkdtemp) dirs ≡ false
  pub makes : e.makes_dir (e.files.resolve mkdtemp) ≡ true
  pub removable : e.rmtree_fails (e.files.resolve mkdtemp) ≡ false
  pub objects : (opts : Opts) (url : String) → e.extract_info opts url true ≢ not_dict

module _ (e : Engine) (mkdtemp url : String) (config : Option String) (dirs : List String)
    (u : Usual e mkdtemp dirs) where
  in_base-Left :
      (opts : String → Opts) (locate : String → Info → Result Error (String × Info))
      → ((i : Info) → Located e.files (locate (e.files.resolve mkdtemp) i))
      → Left e.files
          (e.files.resolve mkdtemp)
          dirs
          (in_base e opts locate url (base_of e mkdtemp none dirs))
  in_base-Left opts locate h =
      let base = e.files.resolve mkdtemp in
      rw u.makes
        (rw u.removable (settle-Left e.files base dirs u.fresh (locate base) _ h (u.objects _ _)))

  -- Without a given directory, `download_video` makes one: it removes it where it raises, and leaves
  -- it, with the file that it returns, where it does not.
  pub download_video-Left :
      Left e.files (e.files.resolve mkdtemp) dirs (download_video e mkdtemp url none config dirs)
  unfolding download_video locate_video
  download_video-Left =
      after_check-Left e.files (e.files.resolve mkdtemp) dirs u.fresh (validate_http_url e.lib url)
        _
        (in_base-Left (video_opts e config) (locate_video e)
          (λ i. checked_video-Located e.files i _))

  -- The same of `download_audio`.
  pub download_audio-Left :
      Left e.files (e.files.resolve mkdtemp) dirs (download_audio e mkdtemp url none config dirs)
  unfolding download_audio locate_audio
  download_audio-Left =
      after_check-Left e.files (e.files.resolve mkdtemp) dirs u.fresh (validate_http_url e.lib url)
        _
        (in_base-Left (audio_opts e config) (locate_audio e)
          (λ i. checked_audio-Located e.files i _))
