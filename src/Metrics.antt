-- ===== src/Metrics.antt =====
-- core/observability.py: counters, and the samples of each histogram. Samples are numbers of ticks.
use mix_saving_bot.Common.{
  ℕ, ◌+◌, ◌-◌, ◌≤◌, String, none, some, List, [], ◌∷◌, ◌++◌, arith, ltb, if◌then◌else◌, length,
  drop, length-drop, length-append, string_eq, nat_eq,
}
use mix_saving_bot.Common.Dict.{Dict, get, put, get-put}

pub record Metrics : Type 0 where
  pub counters : Dict String ℕ
  pub samples : Dict String (List ℕ)

abbrev pub empty : Metrics
empty = record { counters = []; samples = [] }

-- `defaultdict(int)[name]`, `defaultdict(list)[name]`
unfoldable pub count_of : String → Metrics → ℕ
count_of name m = elim (get name m.counters) [ none ↦ 0 | some n ↦ n ]

unfoldable pub samples_of : String → Metrics → List ℕ
samples_of name m = elim (get name m.samples) [ none ↦ [] | some l ↦ l ]

unfoldable pub inc : String → ℕ → Metrics → Metrics
unfolding count_of
inc name value m = record m { counters = put name (count_of name m + value) m.counters }

-- l[-n:]
abbrev pub last : ℕ → List ℕ → List ℕ
last n l = drop (length l - n) l

unfoldable pub observe_duration_sec : String → ℕ → Metrics → Metrics
unfolding samples_of
observe_duration_sec name seconds m =
    let l = samples_of name m ++ seconds ∷ [] in
    record m { samples = put name (if ltb 1000 (length l) then last 500 l else l) m.samples }

-- how many samples of each name are kept
pub record IsSmall (m : Metrics) : Type 0 where
  pub small : (name : String) → length (samples_of name m) ≤ 1000

-- a sample that a worker adds
pub data Op : Type 0 where
  incs : String → ℕ → Op
  observes : String → ℕ → Op

unfoldable pub step : Metrics → Op → Metrics
unfolding inc observe_duration_sec
step m (incs name value) = inc name value m
step m (observes name seconds) = observe_duration_sec name seconds m

unfoldable pub run : Metrics → List Op → Metrics
unfolding step
run m [] = m
run m (o ∷ os) = run (step m o) os

step-IsSmall : (m : Metrics) (o : Op) → IsSmall m → IsSmall (step m o)
unfolding step samples_of
step-IsSmall m (incs name value) v = record { small = λ k. v.small k }
step-IsSmall m (observes name seconds) v = record {
  small = λ k.
      let l = samples_of name m ++ seconds ∷ [] in
      ground (
        arith,
        get-put name k (if ltb 1000 (length l) then last 500 l else l) m.samples,
        length-append (samples_of name m) (seconds ∷ []),
        length-drop (length l - 500) l,
        v.small k,
        v.small name,
      );
}

run-IsSmall : (m : Metrics) (os : List Op) → IsSmall m → IsSmall (run m os)
unfolding run
run-IsSmall m [] v = v
run-IsSmall m (o ∷ os) v = run-IsSmall (step m o) os (step-IsSmall m o v)

-- However many counters and durations are recorded, no histogram holds more than 1000 samples.
run-empty-IsSmall : (os : List Op) → IsSmall (run empty os)
unfolding samples_of get
run-empty-IsSmall os = run-IsSmall empty os (record { small = λ name. omega arith })
