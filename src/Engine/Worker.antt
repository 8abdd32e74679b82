-- ===== src/Engine/Worker.antt =====
-- downloader/yt_dlp_downloader.py behind services/worker_runner.py: the worker with this downloader.
use mix_saving_bot.Common.{
  String, ◌≡◌, refl, ◌∙◌, true, Option, none, some, List, [], ◌∷◌, ◌++◌, map,
}
use mix_saving_bot.Text.{strip}
use mix_saving_bot.Common.Exec.{Result, ok, raised}
use mix_saving_bot.Engine.Files.{Info}
use mix_saving_bot.Engine.Errors.{
  error_for, Category, Error, RawError, message_of, classify_message, mapped_error,
  validate_http_url,
}
use mix_saving_bot.Engine.Options.{Opts}
use mix_saving_bot.Engine.Download.{raw, run_download, download_video_sync, download_audio_sync}
use mix_saving_bot.Engine.Facade.{
  facade_error, mode_of, Exn, fatal, transient, refused, engine_error, Facade, Media, Mode, audio,
  video, download, work, run_engine, sync_download,
}
use mix_saving_bot.Runner.World.{CacheStore, DownloadJobContext, Env, Item, Outcome, items, World}
use mix_saving_bot.Runner.Handle.{fetch}
use mix_saving_bot.Runner.Outcomes.{ending, calls_made, Ending, failure, after_ending, fetch-ending}
use mix_saving_bot.Sanitize.{accepted, validate_for_download}

abbrev pub item_of : Media → Item
item_of m = record { local_path = m.local_path; mime_type = some m.mime_type }

-- how a call of `download` ends for the worker, if its deadline does not pass
abbrev pub outcome_of : Result Exn (List Media) → Outcome
outcome_of (ok l) = items (map item_of l)
outcome_of (raised (fatal message)) = Outcome.fatal message
outcome_of (raised (transient message)) = Outcome.transient
outcome_of (raised (refused v)) = Outcome.crashed
outcome_of (raised (engine_error x)) = Outcome.crashed

-- the answer to the last of the worker's calls
abbrev pub answer_last : Facade → List DownloadJobContext → Outcome
answer_last f [] = Outcome.crashed
answer_last f (ctx ∷ []) = outcome_of (download f ctx []).0
answer_last f (ctx ∷ d ∷ rest) = answer_last f (d ∷ rest)

abbrev pub with_engine : Env → Facade → Env
with_engine env f = record env { download = answer_last f }

answer_last-append :
    (f : Facade) (calls : List DownloadJobContext) (ctx : DownloadJobContext)
    → answer_last f (calls ++ ctx ∷ []) ≡ outcome_of (download f ctx []).0
answer_last-append f [] ctx = refl
answer_last-append f (c ∷ []) ctx = refl
answer_last-append f (c ∷ d ∷ rest) ctx = answer_last-append f (d ∷ rest) ctx

-- yt-dlp is reached, and raises its exception
pub record Raises (f : Facade) (ctx : DownloadJobContext) (exc : RawError) : Type 0 where
  pub allowed : validate_for_download f.engine.lib ctx.source_url ctx.constraints ≡ accepted
  pub is_web : validate_http_url f.engine.lib ctx.source_url ≡ ok tt
  pub makes : (d : String) → f.engine.makes_dir d ≡ true
  pub raises : (opts : Opts) (url : String) → f.engine.extract_info opts url true ≡ raw exc

-- the code and the message that the job should fail with, by the category of the exception
abbrev pub raw_ending : Option Category → String → Ending
raw_ending (some category) msg = failure "UNSUPPORTED" msg
raw_ending none msg = failure "DOWNLOADER_ERROR" "Temporary error while downloading. Try again."

abbrev pub raw_outcome : Option Category → String → Outcome
raw_outcome (some category) msg = Outcome.fatal msg
raw_outcome none msg = Outcome.transient

-- the calls: only an exception without a category is worth a second one
abbrev pub raw_calls :
    Option Category → DownloadJobContext → List DownloadJobContext → List DownloadJobContext
raw_calls (some category) ctx made = made
raw_calls none ctx made = made ++ ctx ∷ []

raw_outcome_lem :
    (o : Option Category) (msg : String)
    → outcome_of (raised (facade_error (error_for o msg))) ≡ raw_outcome o msg
raw_outcome_lem (some category) msg = refl
raw_outcome_lem none msg = refl

raw_ending_lem :
    (o : Option Category) (msg : String)
    → ending (raw_outcome o msg) (raw_outcome o msg) ≡ raw_ending o msg
raw_ending_lem (some category) msg = refl
raw_ending_lem none msg = refl

raw_calls_lem :
    (o : Option Category) (msg : String) (ctx : DownloadJobContext) (made : List DownloadJobContext)
    → calls_made (raw_outcome o msg) ctx made ≡ raw_calls o ctx made
raw_calls_lem (some category) msg ctx made = refl
raw_calls_lem none msg ctx made = refl

mapped_lem :
    (exc : RawError)
    → outcome_of (raised (facade_error (mapped_error exc)))
      ≡ raw_outcome (classify_message (message_of exc)) (message_of exc)
unfolding mapped_error
mapped_lem exc = raw_outcome_lem (classify_message (message_of exc)) (message_of exc)

module _ (f : Facade) (ctx : DownloadJobContext) (exc : RawError) (v : Raises f ctx exc) where
  run_download-raw :
      {B : Type 0} (opts : Opts) (base : String) (k : Info → Result Error B)
      → run_download f.engine opts base ctx.source_url k ≡ raised (mapped_error exc)
  unfolding run_download
  run_download-raw opts base k = simp (v.is_web, v.makes base, v.raises opts (strip ctx.source_url))

  sync_download-raw : (mode : Mode) → sync_download f ctx mode ≡ raised (mapped_error exc)
  unfolding sync_download download_video_sync download_audio_sync
  sync_download-raw audio = run_download-raw _ _ _
  sync_download-raw video = run_download-raw _ _ _

  download-raw :
      outcome_of (download f ctx []).0
      ≡ raw_outcome (classify_message (message_of exc)) (message_of exc)
  unfolding download work run_engine
  download-raw =
      simp (v.allowed, v.makes ctx.work_dir, sync_download-raw (mode_of ctx.requested_format_id))
        (mapped_lem exc)

  -- Where yt-dlp raises on an allowed URL, the worker's retry loop marks the job failed: with the
  -- message of yt-dlp, after one download, if the message speaks of a region, of private content or
  -- of an unsupported URL, and otherwise as a temporary error, after two.
  pub fetch-raw :
      {c : CacheStore} (env : Env) (w : World c)
      → let made = w.calls ++ ctx ∷ [] in
        let kind = classify_message (message_of exc) in
        let r = fetch (with_engine env f) 1 ctx w in
        (r.1.service
          ≡ after_ending
              (env.time w.readings)
              ctx.job_id
              (raw_ending kind (message_of exc))
              w.service)
        × (r.1.calls ≡ raw_calls kind ctx made)
  fetch-raw {c} env w =
      let made = w.calls ++ ctx ∷ [] in
      let kind = classify_message (message_of exc) in
      let first = answer_last-append f w.calls ctx ∙ download-raw in
      let second = answer_last-append f made ctx ∙ download-raw in
      let (s, calls, y) = fetch-ending (with_engine env f) ctx w in
      (
        simp (first, second, raw_ending_lem kind (message_of exc)) at s,
        simp (first, raw_calls_lem kind (message_of exc) ctx made) at calls,
      )
