-- ===== src/Remote/Polls.antt =====
-- services/remote_backend.py: the rounds of the loop of `execute_remote_download`.
use mix_saving_bot.Common.{
  ℕ, zero, suc, ◌+◌, ◌*◌, ◌≤◌, ◌<◌, String, ◌≡◌, refl, ap, ◌∙◌, ◌⊎◌, inl, inr, Bool, true, false,
  Option, none, some, [], ◌∷◌, ◌++◌, arith, ltb, Bool-cases, string_eq, nat_eq,
}
use mix_saving_bot.Common.Exec.{Exec, Result, ok, raised, then_do}
use mix_saving_bot.Queue.Types.{Job, TaskResult}
use mix_saving_bot.Remote.Http.{
  Backend, Session, Reply, response, client_error, broken, Exn, Request, replied,
}
use mix_saving_bot.Remote.Artifact.{Decision, again, answer, collect, kept, save_remote_file}
use mix_saving_bot.Remote.Poll.{act, ask, lift, decision_of, poll, or_continue}
use native.Mathlib.Nat.{mul-suc}

abbrev pub Ran : Type 0
Ran = Result Exn (Option TaskResult) × Session

-- a result or an exception, and not the end of the fuel
abbrev pub is_over : Result Exn (Option TaskResult) → Bool
is_over (ok none) = false
is_over (ok (some r)) = true
is_over (raised x) = true

-- Only a round that leads to another one sleeps, once, and reads no clock.
abbrev Asked : Session → Ran → Type 0
Asked s (ok none, s') = (s'.readings ≡ s.readings) × (s'.sleeps ≡ suc s.sleeps)
Asked s (ok (some r), s') = s'.sleeps ≡ s.sleeps
Asked s (raised x, s') = s'.sleeps ≡ s.sleeps

kept-sleeps :
    (p : String) (r : Result String (Unit {0})) (s : Session) → (kept p r s).1.sleeps ≡ s.sleeps
kept-sleeps p (ok u) s = refl
kept-sleeps p (raised e) s = refl

-- one sleep more, and the clock moves on by an interval at least
few_later :
    (interval total one before now later deadline : ℕ)
    → now ≤ deadline
    → now + interval ≤ later
    → one ≡ suc before
    → (total ≡ one) ⊎ (interval * total + later ≤ interval * one + (deadline + interval))
    → interval * total + now ≤ interval * before + (deadline + interval)
few_later interval total one before now later deadline le step o (inl e) =
    omega (arith, le, ap (λ n. interval * n) (e ∙ o) ∙ mul-suc interval before)
few_later interval total one before now later deadline le step o (inr h) =
    omega (arith, step, h, ap (λ n. interval * n) o ∙ mul-suc interval before)

module _ (b : Backend) (job : Job) (remote_id poll_url : String) where
  act-Asked : (d : Decision) (s : Session) → Asked s (act b job remote_id d s)
  unfolding act save_remote_file
  act-Asked again s = (refl, refl)
  act-Asked (answer r) s = refl
  act-Asked (collect url filename) s = kept-sleeps _ _ _

  lift-Asked :
      (d : Result Exn Decision) (s : Session) → Asked s (then_do (lift d s) (act b job remote_id))
  lift-Asked (ok d) s = act-Asked d s
  lift-Asked (raised x) s = refl

  reply-Asked :
      (reply : Reply) (s : Session)
      → Asked s (
          then_do
            (replied reply s)
            (λ r s'. then_do (lift (decision_of b job remote_id r) s') (act b job remote_id)))
  reply-Asked (response status body) s = lift-Asked _ s
  reply-Asked (client_error e) s = lift-Asked _ s
  reply-Asked (broken e) s = refl

  ask-Asked : (s : Session) → Asked s (ask b job remote_id poll_url s)
  unfolding ask
  ask-Asked s =
      let sent = s.sent ++ Request.get poll_url ∷ [] in
      reply-Asked (b.reply sent) (record s { sent = sent })

  module _ (interval deadline : ℕ) where
    -- how the loop ends that starts at a clock reading of `now`
    abbrev pub Ended : ℕ → Session → Ran → Type 0
    Ended now s (r, s') =
        (is_over r ≡ true)
        × ((s'.sleeps ≡ s.sleeps)
            ⊎ (interval * s'.sleeps + now ≤ interval * s.sleeps + (deadline + interval)))

    asked-Ended :
        (now : ℕ) (s : Session) (rest : Exec Exn Session (Option TaskResult)) (r : Ran)
        → now ≤ deadline
        → Asked s r
        → (r.0 ≡ ok none
            → (now + interval ≤ b.monotonic r.1.readings)
              × Ended (b.monotonic r.1.readings) r.1 (rest r.1))
        → Ended now s (then_do r (or_continue rest))
    asked-Ended now s rest (ok none, s') le (_, one) h =
        let (step, ended) = h refl in (ended.0, inr (few_later _ _ _ _ _ _ _ le step one ended.1))
    asked-Ended now s rest (ok (some x), s') le same h = (refl, inl same)
    asked-Ended now s rest (raised x, s') le same h = (refl, inl same)

    asked-readings : (s : Session) (r : Ran) → Asked s r → r.0 ≡ ok none → r.1.readings ≡ s.readings
    asked-readings s (ok none, s') a e = a.0
    asked-readings s (ok (some x), s') a e = cc
    asked-readings s (raised x, s') a e = cc

    -- the clock after the reading with this number: each later one follows a sleep
    abbrev pub Sleeps : ℕ → Type 0
    Sleeps first = (n : ℕ) → first ≤ n → b.monotonic n + interval ≤ b.monotonic (suc n)

    pub poll-Ended :
        (fuel : ℕ) (s : Session)
        → Sleeps s.readings
        → deadline < b.monotonic s.readings + interval * fuel
        → Ended (b.monotonic s.readings) s (poll b job remote_id poll_url deadline (suc fuel) s)
    unfolding poll
    poll-Ended zero s z enough =
        let late : ltb deadline (b.monotonic s.readings) ≡ true = ground (arith, enough) in
        rw late (refl, inl refl)
    poll-Ended (suc fuel) s z enough =
        let s' = record s { readings = suc s.readings } in
        let r = ask b job remote_id poll_url s' in
        elim (Bool-cases (ltb deadline (b.monotonic s.readings))) [
          | inl late ↦ rw late (refl, inl refl)
          | inr early ↦ rw early (
              asked-Ended (b.monotonic s.readings) s'
                (poll b job remote_id poll_url deadline (suc fuel)) r (ground (arith, early))
                (ask-Asked s')
                (λ e.
                  let q = asked-readings s' r (ask-Asked s') e in
                  let step : b.monotonic s.readings + interval ≤ b.monotonic r.1.readings =
                    rw q (z s.readings (omega arith)) in
                  (
                    step,
                    poll-Ended fuel r.1 (λ n le. z n (omega (arith, le, q)))
                        (omega (arith, enough, step, mul-suc interval fuel)),
                  )))
        ]
