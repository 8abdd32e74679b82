-- ===== src/Tests/Library.antt =====
-- The theorems of `Library` on concrete data.
use mix_saving_bot.Common.{
  ◌≡◌, refl, false, none, some, [], ◌∷◌, if◌then◌else◌, ◌==◌, string_eq, nat_eq,
}
use mix_saving_bot.Library.Cleanup.{used, download_video-cleanup_work_dir}
use mix_saving_bot.Engine.Download.{Places}
use mix_saving_bot.Common.Exec.{ok}
use mix_saving_bot.Tests.Engine.{engine_of, song, refusal}
use mix_saving_bot.Engine.Download.{info, raw, download_video_sync}
use mix_saving_bot.Library.Download.{download_video}
use mix_saving_bot.Library.Agreement.{download_video_agrees}
use mix_saving_bot.Library.Copies.{result_of}
use mix_saving_bot.Library.Directories.{Left, Usual}
use mix_saving_bot.Text.{strip}

download_video_agrees_example :
    download_video
      (engine_of (info song))
      "/tmp/v"
      "https://youtu.be/a"
      (some "/tmp/w")
      (some "/etc/yt-dlp.conf")
      ("/tmp/w" ∷ [])
    ≡ (
      result_of "/tmp/w" (
          download_video_sync
            (engine_of (info song))
            false
            "https://youtu.be/a"
            "/tmp/w"
            (some "/etc/yt-dlp.conf")),
      "/tmp/w" ∷ [],
    )
unfolding strip
download_video_agrees_example =
    download_video_agrees (engine_of (info song)) "https://youtu.be/a" "/tmp/w" "/etc/yt-dlp.conf"
      "/tmp/v" ("/tmp/w" ∷ []) refl

usual : Usual (engine_of (raw refusal)) "/tmp/v" ("/tmp/w" ∷ [])
usual = record { fresh = refl; makes = refl; removable = refl; objects = λ opts url e. cc }

abbrev places : Places
places = record {
  temp_dir = "/tmp";
  resolve = λ p. p;
  parts = λ p. if p == "/tmp/v" then "/" ∷ "tmp" ∷ "v" ∷ [] else "/" ∷ "tmp" ∷ [];
  rmtree_fails = false;
}

-- a refused download leaves no directory of its own, and there is nothing to clean up
download_video-cleanup_work_dir_example :
    Left (engine_of (raw refusal)).files "/tmp/v" ("/tmp/w" ∷ []) (
      download_video
        (engine_of (raw refusal))
        "/tmp/v"
        "https://youtu.be/a"
        none
        none
        ("/tmp/w" ∷ []))
    × (used places (
          download_video
            (engine_of (raw refusal))
            "/tmp/v"
            "https://youtu.be/a"
            none
            none
            ("/tmp/w" ∷ []))
        ≡ (ok tt, "/tmp/w" ∷ []))
download_video-cleanup_work_dir_example =
    download_video-cleanup_work_dir (engine_of (raw refusal)) places "/tmp/v" "https://youtu.be/a"
      none ("/tmp/w" ∷ []) usual (record { resolved = refl; inside = refl; removable = refl })
