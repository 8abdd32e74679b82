-- ===== src/Remote/Results.antt =====
-- services/remote_backend.py: what a result of `execute_remote_download` promises.
use mix_saving_bot.Common.{
  ℕ, zero, suc, String, ◌≡◌, refl, inl, inr, false, Option, none, some, List, [], ◌∷◌, ◌++◌, ltb,
  Bool-cases, string_eq, nat_eq,
}
use mix_saving_bot.Remote.Http.{
  Request, Backend, Session, Reply, response, client_error, broken, Exn, replied,
}
use mix_saving_bot.Remote.Artifact.{
  copied, Decision, again, answer, collect, kept, save_remote_file,
}
use mix_saving_bot.Remote.Answers.{
  reported, artifact_url, copied-is_good, Settled, Decided, Decides, unlinked-fresh,
  output_path-with_filename, decision_of-Decides,
}
use mix_saving_bot.Common.Exec.{Exec, Result, ok, raised, then_do}
use mix_saving_bot.Queue.Types.{Job, TaskResult}
use mix_saving_bot.Remote.Poll.{
  lift, act, ask, decision_of, poll, or_continue, as_result, execute_remote_download, poll_remote,
}
use mix_saving_bot.Remote.Paths.{execute-Holds}
use mix_saving_bot.Remote.Polls.{Ran}
use mix_saving_bot.Text.{elem}

module _ (b : Backend) (job : Job) (files : List String)
    (fresh : elem (b.temp_file files) files ≡ false) where
  kept-Settled :
      (remote_id url : String) (filename : Option String) (r : Result String (Unit {0}))
      (before : List Request) (s : Session)
      → s.temp_files ≡ b.temp_file files ∷ files
      → s.sent ≡ before ++ Request.get url ∷ []
      → reported b artifact_url (b.reply before) ≡ some url
      → copied b s.sent (b.reply s.sent) ≡ r
      → Settled b job files (as_result job remote_id filename (kept (b.temp_file files) r s))
  kept-Settled remote_id url filename (ok u) before s e sent from good = inr (
    (
      refl,
      refl,
      output_path-with_filename b job filename (b.temp_file files) _,
      copied-is_good b job s.sent (b.reply s.sent) u good,
      (before, url, sent, from),
    ),
    e,
  )
  kept-Settled remote_id url filename (raised x) before s e sent from good =
      inl ((refl, inl refl), rw e (unlinked-fresh (b.temp_file files) files fresh))

  act-Settled :
      (remote_id : String) (d : Decision) (s : Session)
      → s.temp_files ≡ files
      → Decided b job (b.reply s.sent) d
      → Settled b job files (act b job remote_id d s)
  unfolding act save_remote_file
  act-Settled remote_id again s e h = e
  act-Settled remote_id (answer r) s e h = inl (h, e)
  act-Settled remote_id (collect url filename) s e h =
      rw e (kept-Settled remote_id url filename _ s.sent _ refl refl h refl)

  lift-Settled :
      (remote_id : String) (d : Result Exn Decision) (s : Session)
      → s.temp_files ≡ files
      → Decides b job (b.reply s.sent) remote_id d
      → Settled b job files (then_do (lift d s) (act b job remote_id))
  lift-Settled remote_id (ok d) s e h = act-Settled remote_id d s e h
  lift-Settled remote_id (raised x) s e h = e

  reply-Settled :
      (remote_id : String) (reply : Reply) (s : Session)
      → s.temp_files ≡ files
      → b.reply s.sent ≡ reply
      → Settled b job files (
          then_do
            (replied reply s)
            (λ r s'. then_do (lift (decision_of b job remote_id r) s') (act b job remote_id)))
  reply-Settled remote_id (response status body) s e at' =
      lift-Settled remote_id _ s e
        (rw at' (decision_of-Decides b job remote_id (response status body)))
  reply-Settled remote_id (client_error x) s e at' =
      lift-Settled remote_id _ s e (rw at' (decision_of-Decides b job remote_id (client_error x)))
  reply-Settled remote_id (broken x) s e at' = e

  ask-Settled :
      (remote_id poll_url : String) (s : Session)
      → s.temp_files ≡ files
      → Settled b job files (ask b job remote_id poll_url s)
  unfolding ask
  ask-Settled remote_id poll_url s e =
      let sent = s.sent ++ Request.get poll_url ∷ [] in
      reply-Settled remote_id (b.reply sent) (record s { sent = sent }) e refl

  asked-Settled :
      (rest : Exec Exn Session (Option TaskResult)) (r : Ran)
      → Settled b job files r
      → ((s : Session) → s.temp_files ≡ files → Settled b job files (rest s))
      → Settled b job files (then_do r (or_continue rest))
  asked-Settled rest (ok none, s) h k = k s h
  asked-Settled rest (ok (some x), s) h k = h
  asked-Settled rest (raised x, s) h k = h

  poll-Settled :
      (remote_id poll_url : String) (deadline fuel : ℕ) (s : Session)
      → s.temp_files ≡ files
      → Settled b job files (poll b job remote_id poll_url deadline fuel s)
  unfolding poll
  poll-Settled remote_id poll_url deadline zero s e = e
  poll-Settled remote_id poll_url deadline (suc fuel) s e =
      let s' = record s { readings = suc s.readings } in
      elim (Bool-cases (ltb deadline (b.monotonic s.readings))) [
        | inl late ↦ rw late (inl ((refl, inl refl), e))
        | inr early ↦ rw early (
            asked-Settled (poll b job remote_id poll_url deadline fuel)
              (ask b job remote_id poll_url s') (ask-Settled remote_id poll_url s' e)
              (poll-Settled remote_id poll_url deadline fuel))
      ]

  -- A result of the call is one for its own job. It is a failure, or completed with the path of a
  -- file that is there and that the artifact in the last reply names as its path, or completed with
  -- the file that was fetched by the last request: from the URL that the artifact in the reply before
  -- names, and with a status below 400. A fetched file is the only one that the call leaves behind:
  -- none if it fails, raises or still waits. A temporary file has a name that no other one has.
  pub execute_remote_download-Settled :
      (fuel : ℕ) (api_base : String) (s : Session)
      → s.temp_files ≡ files
      → Settled b job files (execute_remote_download b fuel job api_base s)
  unfolding poll_remote
  execute_remote_download-Settled fuel =
      execute-Holds b job fuel (λ readings sleeps now r. now ≡ files → Settled b job files r)
        (λ x t e. e) (λ message detail t e. inl ((refl, inl refl), e))
        (λ base remote_id t. poll-Settled remote_id _ _ fuel _)
