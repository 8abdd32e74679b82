-- ===== src/Engine/Progress.antt =====
-- downloader/_sync_engine.py: the progress lines, and the hook that decides which are logged. A
-- percentage is a number of hundredths, a clock reading one of milliseconds. The float arithmetic of
-- `round` and of the formats is a parameter.
use mix_saving_bot.Common.{
  ℕ, zero, suc, ◌+◌, ◌*◌, ◌≤◌, String, ◌≡◌, Bool, true, false, ◌&&◌, ◌||◌, Option, none, some, List,
  [], ◌∷◌, ◌++◌, arith, leb, if◌then◌else◌, ◌==◌, string_eq, nat_eq,
}
use Prim.Native.String.{◌++◌ as ◌+s◌}
use mix_saving_bot.Text.{join, suffix_of, or_else}

-- the keys of a progress dictionary; a missing key, or one that is no number, is `none`
pub record Progress : Type 0 where
  pub status : Option String
  pub total_bytes : Option ℕ
  pub total_bytes_estimate : Option ℕ
  pub downloaded_bytes : Option ℕ
  pub speed : Option ℕ
  pub eta : Option ℕ
  pub filename : Option String
  pub tmpfilename : Option String

pub record Format : Type 0 where
  -- round(100.0 * downloaded / total, 2)
  pub percent : ℕ → ℕ → ℕ
  pub percent_text : ℕ → String
  -- f"{x / scale:.2f}"
  pub ratio : ℕ → ℕ → String
  pub digits : ℕ → String
  -- urlparse(url).netloc, and Path(label).name
  pub netloc : String → String
  pub leaf : String → String

abbrev pub or_number : Option ℕ → Option ℕ → Option ℕ
or_number none b = b
or_number (some zero) b = b
or_number (some (suc n)) b = some (suc n)

abbrev pub total_of : Progress → Option ℕ
total_of d = or_number d.total_bytes d.total_bytes_estimate

abbrev pub percent_of : Format → Option ℕ → Option ℕ → Option ℕ
percent_of fmt (some (suc total)) (some done) = some (fmt.percent done (suc total))
percent_of fmt _ _ = none

unfoldable pub pct_from_progress_dict : Format → Progress → Option ℕ
pct_from_progress_dict fmt d = percent_of fmt (total_of d) d.downloaded_bytes

unfoldable pub humanize_bytes : Format → ℕ → String
humanize_bytes fmt n =
    if leb 1073741824 n
    then fmt.ratio n 1073741824 +s " GiB"
    else if leb 1048576 n
    then fmt.ratio n 1048576 +s " MiB"
    else if leb 1024 n
    then fmt.ratio n 1024 +s " KiB"
    else fmt.digits n +s " B"

abbrev pub text_part : String → Option String → List String
text_part label none = []
text_part label (some s) = if s == "" then [] else (label +s s) ∷ []

abbrev pub host_part : Format → Option String → List String
host_part fmt none = []
host_part fmt (some url) = if url == "" then [] else text_part "host=" (some (fmt.netloc url))

abbrev pub pct_part : Format → Option ℕ → List String
pct_part fmt none = []
pct_part fmt (some pct) = (fmt.percent_text pct +s "%") ∷ []

abbrev pub bytes_part : Format → Option ℕ → Option ℕ → List String
bytes_part fmt none total = []
bytes_part fmt (some done) (some (suc total)) =
    (humanize_bytes fmt done +s (" / " +s humanize_bytes fmt (suc total))) ∷ []
bytes_part fmt (some done) _ = humanize_bytes fmt done ∷ []

abbrev pub speed_part : Format → Option ℕ → List String
speed_part fmt (some (suc n)) = (humanize_bytes fmt (suc n) +s "/s") ∷ []
speed_part fmt _ = []

abbrev pub eta_part : Format → Option ℕ → List String
eta_part fmt none = []
eta_part fmt (some n) = ("ETA " +s (fmt.digits n +s "s")) ∷ []

abbrev pub label_of : Progress → Option String
label_of d = elim d.filename [
  | none ↦ d.tmpfilename
  | some s ↦ if s == "" then d.tmpfilename else some s
]

abbrev pub leaf_part : Format → Option String → List String
leaf_part fmt none = []
leaf_part fmt (some label) =
    if label == ""
    then []
    else if fmt.leaf label == ""
    then []
    else suffix_of 120 (fmt.leaf label) ∷ []

abbrev pub status_text : Progress → String
status_text d = elim d.status [ none ↦ "?" | some s ↦ or_else s "?" ]

unfoldable pub format_ytdlp_progress_line :
    Format → Progress → Option String → Option String → String
unfolding humanize_bytes pct_from_progress_dict
format_ytdlp_progress_line fmt d job_id source_url =
    let counts =
      if status_text d == "downloading"
      then bytes_part fmt d.downloaded_bytes (total_of d)
        ++ (speed_part fmt d.speed ++ eta_part fmt d.eta)
      else [] in
    "yt-dlp | "
    +s join " | " (
        text_part "job=" job_id
        ++ (host_part fmt source_url
            ++ (("status=" +s status_text d)
                ∷ (pct_part fmt (pct_from_progress_dict fmt d)
                    ++ (counts ++ leaf_part fmt (label_of d))))))

-- last_info, and 100 % more than last_info_pct
pub record Hook : Type 0 where
  pub last_info : ℕ
  pub last_pct : ℕ

abbrev pub start : Hook
start = record { last_info = 0; last_pct = 0 }

-- whether a line is logged for all to see, and the state after it
unfoldable pub emit_info : ℕ → Bool → Option ℕ → Hook → Bool × Hook
emit_info now false pct h = (true, record h { last_info = now })
emit_info now true none h =
    if leb (h.last_info + 2000) now then (true, record h { last_info = now }) else (false, h)
emit_info now true (some pct) h =
    if leb (h.last_pct + 1000) (pct + 10000) || leb (h.last_info + 3000) now
    then (true, record { last_info = now; last_pct = pct + 10000 })
    else (false, h)

abbrev pub status_is : Option String → Bool
status_is none = false
status_is (some s) = s == "downloading"

-- the level of a line
pub data Level : Type 0 where
  info debug : Level

unfoldable pub hook : Format → Bool → ℕ → Progress → Hook → Level × Hook
unfolding emit_info pct_from_progress_dict
hook fmt log_full_every_hook now d h =
    if log_full_every_hook
    then (info, h)
    else let (emits, h') = emit_info now (status_is d.status) (pct_from_progress_dict fmt d) h in
      (if emits then info else debug, h')

-- how many lines of a download with a known size are logged
unfoldable pub infos : List (ℕ × ℕ) → Hook → ℕ
unfolding emit_info
infos [] h = 0
infos ((now, pct) ∷ rest) h =
    let (emits, h') = emit_info now true (some pct) h in (if emits then 1 else 0) + infos rest h'

-- neither the clock nor the percentage runs backwards, and both stay below their bounds
unfoldable pub is_steady : ℕ → ℕ → ℕ → List (ℕ × ℕ) → Bool
is_steady time now pct [] = leb now time && leb pct 10000
is_steady time now pct ((t, p) ∷ rest) = leb now t && leb pct p && is_steady time t p rest

infos-le :
    (time now pct : ℕ) (calls : List (ℕ × ℕ)) (h : Hook)
    → h.last_info ≤ now
    → h.last_pct ≤ pct + 10000
    → is_steady time now pct calls ≡ true
    → 3000 * infos calls h + (3 * h.last_pct + h.last_info) ≤ 60000 + time
unfolding infos emit_info is_steady
infos-le time now pct [] h a b s = ground (arith, a, b, s)
infos-le time now pct ((t, p) ∷ rest) h a b s = ground (
  arith,
  a,
  b,
  s,
  infos-le time t p rest h,
  infos-le time t p rest (record { last_info = t; last_pct = p + 10000 }),
)

-- The log is not flooded: however often yt-dlp reports the progress of a download with a known size,
-- from a clock reading of `first` to one of `time` milliseconds, at most 20 lines are logged, and one
-- more for each three seconds, if neither the clock nor the percentage runs backwards.
pub infos-start-le :
    (first time : ℕ) (calls : List (ℕ × ℕ))
    → is_steady time first 0 calls ≡ true
    → 3000 * infos calls start + first ≤ 60000 + time
unfolding infos emit_info is_steady
infos-start-le first time [] s = ground (arith, s)
infos-start-le first time ((t, p) ∷ rest) s = ground (
  arith,
  s,
  infos-le time t p rest (record { last_info = t; last_pct = p + 10000 }) (omega arith)
      (omega arith),
)
