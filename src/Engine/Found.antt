-- ===== src/Engine/Found.antt =====
-- downloader/_sync_engine.py: the file that the engine looks for.
use mix_saving_bot.Common.{
  String, ◌≡◌, refl, ◌∙◌, inl, inr, Bool, true, ◌&&◌, Option, none, some, List, [], ◌∷◌, arith,
  ◌==◌, Bool-cases, string_eq, nat_eq,
}
use mix_saving_bot.Common.Dict.{get}
use mix_saving_bot.Engine.Options.{build_common_ydl_opts, Opts, update}
use mix_saving_bot.Text.{strip, lower}
use mix_saving_bot.Common.Exec.{Result, ok, raised}
use mix_saving_bot.Common.Sorting.{all, all-sort_desc}
use mix_saving_bot.Engine.Files.{some_downloads, last_file, some_text, Files, Entry, Info}
use mix_saving_bot.Engine.Errors.{validate_http_url, Error, ◌>>=◌, ◌>>◌}
use mix_saving_bot.Engine.Output.{
  or_next, existing, only_one, first_whole, whole_ones, resolve_output_path, is_whole, by_id,
}
use mix_saving_bot.Engine.Download.{
  checked, audio_file, audio_opts, video_opts, make_base, with_hook, run_download, Engine,
  download_video_sync, download_audio_sync, located_video, located_audio,
}

-- the path is that of a file which the search saw, with its links resolved
pub record IsOutput (fs : Files) (p : String) : Type 0 where
  pub source : String
  pub is_there : fs.is_file source ≡ true
  pub is_path : p ≡ fs.resolve source

module _ (fs : Files) (p : String) where
  whole-IsOutput : (e : Entry) → is_whole fs e ≡ true → p ≡ fs.resolve e.path → IsOutput fs p
  whole-IsOutput e w h = record { source = e.path; is_there = ground (arith, w); is_path = h }

  first_whole-IsOutput : (es : List Entry) → first_whole fs es ≡ some p → IsOutput fs p
  unfolding first_whole
  first_whole-IsOutput [] h = cc
  first_whole-IsOutput (e ∷ es) h = elim (Bool-cases (is_whole fs e)) [
    | inl w ↦ whole-IsOutput e w (ground (arith, w, h))
    | inr n ↦ first_whole-IsOutput es (ground (arith, n, h))
  ]

  all-whole_ones : (es : List Entry) → all (is_whole fs) (whole_ones fs es) ≡ true
  unfolding whole_ones
  all-whole_ones [] = refl
  all-whole_ones (e ∷ es) = elim (Bool-cases (is_whole fs e)) [
    | inl w ↦ rw w (ground (arith, w, all-whole_ones es))
    | inr n ↦ rw n (all-whole_ones es)
  ]

  only_one-IsOutput :
      (es : List Entry) → all (is_whole fs) es ≡ true → only_one fs es ≡ some p → IsOutput fs p
  only_one-IsOutput [] w h = cc
  only_one-IsOutput (e ∷ []) w h = whole-IsOutput e (ground (arith, w)) (ground (arith, h))
  only_one-IsOutput (e ∷ d ∷ es) w h = cc

  existing-IsOutput : (o : Option String) → existing fs o ≡ some p → IsOutput fs p
  existing-IsOutput none h = cc
  existing-IsOutput (some q) h = elim (Bool-cases (fs.is_file q)) [
    | inl t ↦ record { source = q; is_there = t; is_path = ground (arith, t, h) }
    | inr n ↦ ground (arith, n, h)
  ]

  by_id-IsOutput :
      (re_escape : String → String) (dir : String) (id : Option String)
      → by_id fs re_escape dir id ≡ some p
      → IsOutput fs p
  unfolding by_id
  by_id-IsOutput re_escape dir none h = cc
  by_id-IsOutput re_escape dir (some id) h = first_whole-IsOutput _ h

  or_next-IsOutput :
      (a b : Option String)
      → (a ≡ some p → IsOutput fs p)
      → (b ≡ some p → IsOutput fs p)
      → or_next a b ≡ some p
      → IsOutput fs p
  or_next-IsOutput none b f g h = g h
  or_next-IsOutput (some a) b f g h = f h

  -- Whichever of the four searches finds it, the output path is that of a file which is there.
  pub resolve_output_path-IsOutput :
      (re_escape : String → String) (dir : String) (info : Info)
      → resolve_output_path fs re_escape dir info ≡ some p
      → IsOutput fs p
  unfolding resolve_output_path
  resolve_output_path-IsOutput re_escape dir info =
      let file = some_text (get "filepath" info) in
      let last = last_file (some_downloads (get "requested_downloads" info)) in
      let all_whole =
        all-sort_desc (λ (e : Entry). e.mtime) (is_whole fs) (whole_ones fs (fs.iterdir dir))
        ∙ all-whole_ones (fs.iterdir dir) in
      let id = some_text (get "id" info) in
      or_next-IsOutput _ _ (existing-IsOutput file) (
        or_next-IsOutput _ _ (existing-IsOutput last)
          (or_next-IsOutput _ _ (by_id-IsOutput re_escape dir id) (only_one-IsOutput _ all_whole)))

-- the last step of a chain that succeeds
bind_last :
    {A B : Type 0} (m n : Result Error (Unit {0})) (o : Result Error A) (k : A → Result Error B)
    {b : B}
    → (m >> (n >> (o >>= k))) ≡ ok b
    → (a : A) × (k a ≡ ok b)
bind_last (ok u) (ok v) (ok a) k h = (a, h)
bind_last (ok u) (ok v) (raised x) k h = cc
bind_last (ok u) (raised x) o k h = cc
bind_last (raised x) n o k h = cc

located_video-there :
    (fs : Files) (i : Info) (o : Option String) (out : String × Info)
    → located_video fs i o ≡ ok out
    → fs.is_file out.0 ≡ true
located_video-there fs i none out h = cc
located_video-there fs i (some p) out h = ground (arith, h)

located_audio-there :
    (fs : Files) (i : Info) (o : Option String) (out : String × Info)
    → located_audio fs i o ≡ ok out
    → (fs.is_file out.0 && lower (fs.suffix out.0) == ".mp3") ≡ true
located_audio-there fs i none out h = cc
located_audio-there fs i (some p) out h = ground (arith, h)

-- a download that succeeds has come to its last step
run_download-last :
    {B : Type 0} (e : Engine) (opts : Opts) (base url : String) (k : Info → Result Error B) (b : B)
    → run_download e opts base url k ≡ ok b
    → (i : Info) × (k i ≡ ok b)
unfolding run_download
run_download-last e opts base url k b h =
    bind_last (validate_http_url e.lib url) (make_base e base)
      (checked (e.extract_info opts (strip url) true)) k h

module _ (e : Engine) (hook : Bool) (url work_dir : String) (config : Option String)
    (out : String × Info) where
  pub download_video_sync-there :
      download_video_sync e hook url work_dir config ≡ ok out → e.files.is_file out.0 ≡ true
  unfolding download_video_sync
  download_video_sync-there h =
      let base = e.files.resolve work_dir in
      let opts = update (with_hook hook (build_common_ydl_opts e.environ base config)) video_opts in
      let found : Info → Option String = λ i. resolve_output_path e.files e.re_escape base i in
      let (i, k) =
        run_download-last e opts base url (λ i. located_video e.files i (found i)) out h in
      located_video-there e.files i (found i) out k

  pub download_audio_sync-there :
      download_audio_sync e hook url work_dir config ≡ ok out
      → (e.files.is_file out.0 && lower (e.files.suffix out.0) == ".mp3") ≡ true
  unfolding download_audio_sync
  download_audio_sync-there h =
      let base = e.files.resolve work_dir in
      let opts =
        update (with_hook hook (build_common_ydl_opts e.environ base config)) (audio_opts base) in
      let (i, k) =
        run_download-last e opts base url (λ i. located_audio e.files i (audio_file e base i)) out
          h in
      located_audio-there e.files i (audio_file e base i) out k
