-- ===== src/Engine/Handed.antt =====
-- downloader/yt_dlp_downloader.py: what `download` hands to the worker.
use mix_saving_bot.Common.{
  ◌≤◌, String, ◌≡◌, refl, Bool, true, ◌&&◌, List, [], ◌∷◌, ◌++◌, arith, ◌==◌, string_eq, nat_eq,
}
use mix_saving_bot.Text.{lower}
use mix_saving_bot.Common.Exec.{Result, ok, raised, then_do, then_do-last}
use mix_saving_bot.Engine.Files.{Files, Info}
use mix_saving_bot.Engine.Errors.{Error}
use mix_saving_bot.Engine.Found.{download_video_sync-there, download_audio_sync-there}
use mix_saving_bot.Engine.Facade.{
  starting, downloading, work, run_engine, mode_of, Facade, Media, Mode, audio, video, Stage,
  download, hand_over, sync_download, media_of, check_url, make_work, lift_engine,
}
use mix_saving_bot.Runner.World.{DownloadJobContext}
use mix_saving_bot.Sanitize.{validate_for_download}

-- the file is there, and an mp3 file if sound is wanted
abbrev pub is_good : Files → Mode → String → Bool
is_good fs audio p = fs.is_file p && lower (fs.suffix p) == ".mp3"
is_good fs video p = fs.is_file p

-- one item, of such a file, that is not too large
pub record Handed (f : Facade) (ctx : DownloadJobContext) (l : List Media) : Type 0 where
  pub outfile : String
  pub slim : Info
  pub is_item : l ≡ media_of f.engine.files (mode_of ctx.requested_format_id) outfile slim ∷ []
  pub good : is_good f.engine.files (mode_of ctx.requested_format_id) outfile ≡ true
  pub small : f.engine.files.size_of outfile ≤ ctx.constraints.max_file_size_bytes

module _ (f : Facade) (ctx : DownloadJobContext) (l : List Media) where
  hand_over-Handed :
      (out : String × Info) (stages : List Stage)
      → is_good f.engine.files (mode_of ctx.requested_format_id) out.0 ≡ true
      → (hand_over f ctx (mode_of ctx.requested_format_id) out stages).0 ≡ ok l
      → Handed f ctx l
  hand_over-Handed (outfile, slim) stages g h = record {
    outfile = outfile;
    slim = slim;
    is_item = ground (arith, h);
    good = g;
    small = ground (arith, h);
  }

  sync_download-good :
      (mode : Mode) (out : String × Info)
      → sync_download f ctx mode ≡ ok out
      → is_good f.engine.files mode out.0 ≡ true
  unfolding sync_download
  sync_download-good audio out h =
      download_audio_sync-there f.engine true ctx.source_url ctx.work_dir f.config_path out h
  sync_download-good video out h =
      download_video_sync-there f.engine true ctx.source_url ctx.work_dir f.config_path out h

  engine-Handed :
      (r : Result Error (String × Info)) (stages : List Stage)
      → sync_download f ctx (mode_of ctx.requested_format_id) ≡ r
      → (then_do (lift_engine r stages) (hand_over f ctx (mode_of ctx.requested_format_id))).0
        ≡ ok l
      → Handed f ctx l
  engine-Handed (ok out) stages e h =
      hand_over-Handed out stages (sync_download-good (mode_of ctx.requested_format_id) out e) h
  engine-Handed (raised x) stages e h = cc

  -- If `download` returns, it hands over one item: a file that yt-dlp has left and that is not larger
  -- than allowed, and an mp3 file where the requested format is sound.
  pub download-Handed : (stages : List Stage) → (download f ctx stages).0 ≡ ok l → Handed f ctx l
  unfolding download work run_engine
  download-Handed stages h =
      let checked =
        check_url (validate_for_download f.engine.lib ctx.source_url ctx.constraints)
          (stages ++ starting ∷ []) in
      let (u, h') = then_do-last checked (λ _. work f ctx) h in
      let made = make_work f ctx checked.1 in
      let (v, h'') = then_do-last made (λ _ s. run_engine f ctx (s ++ downloading ∷ [])) h' in
      engine-Handed (sync_download f ctx (mode_of ctx.requested_format_id))
        (made.1 ++ downloading ∷ []) refl h''
