-- ===== src/Jobs/Waiter.antt =====
-- services/jobs/terminal_waiter.py. The futures of the event loop are a list, and a future is its
-- place in it; `JobTerminalWaiter._futures` maps a job to such a place.
use mix_saving_bot.Common.{
  ℕ, String, Option, none, some, List, [], ◌∷◌, ◌++◌, ltb, if◌then◌else◌, length, get_elem?, set,
  string_eq, nat_eq,
}
use mix_saving_bot.Common.Dict.{Dict, get, put, remove}
use mix_saving_bot.Contracts.{JobRecord, is_terminal}

pub data Future : Type 0 where
  pending : Future
  done : JobRecord → Future
  cancelled : Future

pub record Waiter : Type 0 where
  pub futures : Dict String ℕ
  pub terminal : Dict String JobRecord
  pub max_terminal : ℕ
  pub loop : List Future

abbrev pub init : ℕ → Waiter
init max_terminal = record { futures = []; terminal = []; max_terminal = max_terminal; loop = [] }

-- _trim_terminal: the oldest entry goes while there are more than `max_terminal`
unfoldable pub trim : ℕ → Dict String JobRecord → Dict String JobRecord
trim limit [] = []
trim limit (e ∷ rest) =
    let rest' = trim limit rest in if ltb limit (length (e ∷ rest)) then rest' else e ∷ rest

-- loop.create_future(), and fut.set_result on it at once
unfoldable pub create : Future → Waiter → ℕ × Waiter
create f w = (length w.loop, record w { loop = w.loop ++ f ∷ [] })

-- the part of `subscribe` under the lock
unfoldable pub subscribe_open : String → Waiter → ℕ × Waiter
unfolding create
subscribe_open job_id w = elim (get job_id w.terminal) [
  | some cached ↦ create (done cached) w
  | none ↦ elim (get job_id w.futures) [
    | some fut ↦ (fut, w)
    | none ↦
        let (fut, w') = create pending w in (fut, record w' { futures = put job_id fut w'.futures })
  ]
]

unfoldable pub subscribe : String → Option JobRecord → Waiter → ℕ × Waiter
unfolding create subscribe_open
subscribe job_id none w = subscribe_open job_id w
subscribe job_id (some snapshot) w =
    if is_terminal snapshot.status then create (done snapshot) w else subscribe_open job_id w

-- if fut is not None and not fut.done(): fut.set_result(snap)
abbrev pub resolve : Option ℕ → JobRecord → List Future → List Future
resolve none snap loop = loop
resolve (some fut) snap loop = elim (get_elem? loop fut) [
  | some pending ↦ set loop fut (done snap)
  | _ ↦ loop
]

unfoldable pub publish_terminal : JobRecord → Waiter → Waiter
unfolding trim
publish_terminal rec w =
    if is_terminal rec.status
    then record w {
      terminal = trim w.max_terminal (put rec.job_id rec w.terminal);
      futures = remove rec.job_id w.futures;
      loop = resolve (get rec.job_id w.futures) rec w.loop;
    }
    else w

-- asyncio.wait_for cancels the future that it waits for when the time is up
unfoldable pub cancel : ℕ → Waiter → Waiter
cancel fut w = elim (get_elem? w.loop fut) [
  | some pending ↦ record w { loop = set w.loop fut cancelled }
  | _ ↦ w
]
