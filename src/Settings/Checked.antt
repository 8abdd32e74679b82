-- ===== src/Settings/Checked.antt =====
-- core/settings.py: what is sure of settings that are accepted.
use mix_saving_bot.Common.{
  ◌≤◌, String, ◌≡◌, refl, ◌≢◌, inl, inr, false, Option, none, some, arith, eq_iff, ◌==◌, Bool-cases,
  Option-cases, string_eq, nat_eq,
}
use mix_saving_bot.Contracts.{negsuc, pos, ℤ}
use mathlib.Core.Path.{subst}
use mix_saving_bot.Text.{upper, strip, strip_idem}
use mix_saving_bot.Common.Exec.{Result, ok, raised}
use mix_saving_bot.Settings.Values.{
  int_field, make_settings, field, allowed_hosts_of, repo_of, file, cache_backend_of, memory,
  backend_of, other_settings, ◌>>=◌, bounded, token_of, parsed, level_of, strip_bot_token,
  normalize_log_level, Settings, Error, Env, Pydantic, in_range,
}

-- what holds of a value that is returned
abbrev Returned : {A : Type 0} → (A → Type 0) → Result Error A → Type 0
Returned P (ok a) = P a
Returned P (raised x) = Unit {0}

Returned-bind :
    {A B : Type 0} (P : B → Type 0) (m : Result Error A) (f : A → Result Error B)
    → ((a : A) → m ≡ ok a → Returned P (f a))
    → Returned P (m >>= f)
Returned-bind P (ok a) f h = h a refl
Returned-bind P (raised x) f h = tt

returned :
    {A : Type 0} (P : A → Type 0) (r : Result Error A) {a : A} → r ≡ ok a → Returned P r → P a
returned P (ok b) e h = subst P (ground (arith, e)) h
returned P (raised x) e h = cc

-- the seconds that an upload may take
abbrev pub IsTimeout : ℤ → Type 0
IsTimeout (pos n) = (30 ≤ n) × (n ≤ 3600)
IsTimeout (negsuc n) = ⊥

pub record IsChecked (s : Settings) : Type 0 where
  pub token : strip s.bot_token ≡ s.bot_token
  pub level : s.log_level ≢ ""
  pub timeout : IsTimeout s.telegram_document_upload_timeout_sec

in_range-IsTimeout : (n m : ℤ) → in_range n ≡ some m → IsTimeout m
unfolding in_range
in_range-IsTimeout (pos n) (pos m) e = (ground (arith, e), ground (arith, e))
in_range-IsTimeout (pos n) (negsuc m) e = ground (arith, e)
in_range-IsTimeout (negsuc n) m e = cc

bounded-some :
    (int_of : String → Option ℤ) (s : String) (m : ℤ)
    → bounded int_of s ≡ some m
    → (n : ℤ) × (in_range n ≡ some m)
bounded-some int_of s m e = elim (Option-cases (int_of s)) [
  | inl no_number ↦ absurd (ground (arith, e, no_number))
  | inr (n, there) ↦ (n, ground (arith, e, there))
]

parsed-IsTimeout :
    (name : String) (int_of : String → Option ℤ) (o : Option String) (m : ℤ)
    → parsed name (bounded int_of) (pos 300) o ≡ ok m
    → IsTimeout m
parsed-IsTimeout name int_of none m e =
    subst IsTimeout (let same : pos 300 ≡ m = cc e in same) (omega arith)
parsed-IsTimeout name int_of (some s) m e =
    let (n, there) = bounded-some int_of s m (ground (arith, e)) in in_range-IsTimeout n m there

token-stripped : (o : Option String) → strip (token_of o) ≡ token_of o
unfolding strip_bot_token strip
token-stripped none = refl
token-stripped (some s) = strip_idem s

info-ne : ◌≢◌ {A = String} "INFO" ""
info-ne e = cc

level-ne : (o : Option String) → level_of o ≢ ""
unfolding normalize_log_level
level-ne none = info-ne
level-ne (some s) = elim (Bool-cases (upper (strip s) == "")) [
  | inl blank ↦ rw blank info-ne
  | inr full ↦ λ e. ground (arith, full, e, eq_iff (upper (strip s)) "")
]

other_settings-Returned :
    (p : Pydantic) (env : Env) (timeout : ℤ)
    → IsTimeout timeout
    → Returned IsChecked (other_settings p env timeout)
unfolding other_settings
other_settings-Returned p env timeout fits =
    Returned-bind IsChecked (field env "QUEUE_BACKEND" backend_of memory) _ λ backend _.
      Returned-bind IsChecked (field env "CACHE_BACKEND" cache_backend_of file) _ λ cache _.
        Returned-bind IsChecked (field env "JOB_REPO_BACKEND" repo_of tt) _ λ repo _.
          Returned-bind IsChecked (int_field p env "MAX_CONCURRENT_DOWNLOADS" (pos 2)) _
            λ concurrent _.
              Returned-bind IsChecked (int_field p env "DOWNLOAD_DEADLINE_SEC" (pos 600)) _
                λ deadline _.
                  Returned-bind IsChecked (int_field p env "MAX_OUTPUT_BYTES" (pos 2000000000)) _
                    λ output _.
                      Returned-bind IsChecked (int_field p env "MAX_DURATION_SEC" (pos 7200)) _
                        λ duration _.
                          Returned-bind IsChecked (allowed_hosts_of p (env "ALLOWED_HOSTS")) _
                            λ hosts _.
                              Returned-bind IsChecked
                                (field env "DOWNLOAD_LOG_EVERY_PROGRESS" p.bool_of false) _
                                λ every _.
                                  Returned-bind IsChecked
                                    (int_field p env "HIGH_WATER_QUEUE_DEPTH" (pos 200)) _
                                    λ depth _.
                                      Returned-bind IsChecked
                                        (int_field p env "RATE_LIMIT_MAX_EVENTS" (pos 35)) _
                                        λ events _.
                                          Returned-bind IsChecked
                                            (field env "RATE_LIMIT_WINDOW_SECONDS" p.float_of
                                              (pos 60))
                                            _
                                            λ window _. record {
                                              token = token-stripped (env "BOT_TOKEN");
                                              level = level-ne (env "LOG_LEVEL");
                                              timeout = fits;
                                            }

-- Settings that are accepted have a token without white space around it, the name of a log level that
-- is not empty, and from 30 to 3600 seconds for an upload, whatever stands in the environment.
pub make_settings-IsChecked :
    (p : Pydantic) (env : Env) (s : Settings) → make_settings p env ≡ ok s → IsChecked s
unfolding make_settings
make_settings-IsChecked p env s e = returned IsChecked (make_settings p env) e (
    Returned-bind IsChecked
      (field env "TELEGRAM_DOCUMENT_UPLOAD_TIMEOUT_SEC" (bounded p.int_of) (pos 300)) _
      λ timeout read. other_settings-Returned p env timeout (
        parsed-IsTimeout "TELEGRAM_DOCUMENT_UPLOAD_TIMEOUT_SEC" p.int_of
          (env "TELEGRAM_DOCUMENT_UPLOAD_TIMEOUT_SEC") timeout read))
