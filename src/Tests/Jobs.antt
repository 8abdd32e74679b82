-- ===== src/Tests/Jobs.antt =====
-- The theorems of `Jobs` on concrete data.
use mix_saving_bot.Common.{
  ◌≡◌, refl, none, some, List, [], ◌∷◌, arith, get_elem?, string_eq, nat_eq,
}
use mix_saving_bot.Jobs.Service.{find_duplicate, mark_running, submit}
use mix_saving_bot.Jobs.Repository.{find_active_by_dedupe, save}
use mix_saving_bot.Jobs.Dedupe.{starts}
use mix_saving_bot.Common.Dict.{put}
use mix_saving_bot.Jobs.Service.{submit}
use mix_saving_bot.Common.Dict.{get}
use mix_saving_bot.Common.Dict.{get}
use mix_saving_bot.Jobs.Futures.{step, Op, run, subscribes, publishes, cancels}
use mix_saving_bot.Jobs.Waiting.{subscribed, no_lost_wakeup}
use mix_saving_bot.Jobs.Dedupe.{IsDeduped, here, next, submits, start, Reach-IsDeduped}
use mix_saving_bot.Jobs.Waiter.{done, create, subscribe_open, publish_terminal, subscribe}
use mix_saving_bot.Tests.Data.{request, waiting_job, finished_job}

-- two handlers wait for a job, and one gives up
abbrev ops : List Op
ops = subscribes "j1" none ∷ subscribes "j0" none ∷ cancels 1 ∷ publishes finished_job ∷ []

-- the handler subscribes with the record of the job as it is
no_lost_wakeup_example :
    get_elem? (run (subscribed 4 (publishes waiting_job ∷ []) "j1" (some waiting_job)).1 ops).loop 0
    ≡ some (done finished_job)
unfolding run step subscribe subscribe_open publish_terminal create get
no_lost_wakeup_example =
    no_lost_wakeup 4 (publishes waiting_job ∷ []) ops "j1" (some waiting_job) refl
      ((λ e. omega (arith, e)), tt)

Reach-IsDeduped_example :
    IsDeduped
      (submit 12 "j2" request
        (some "k1")
        (mark_running 11 "j1" (submit 10 "j1" request (some "k1") (start none)).1)).1.repo
unfolding submit find_duplicate find_active_by_dedupe save put get
Reach-IsDeduped_example =
    Reach-IsDeduped {waiter = none}
      (next
        (next (next here (submits 10 "j1" request (some "k1") (start none)))
          (starts 11 "j1" (submit 10 "j1" request (some "k1") (start none)).1))
        (submits 12 "j2" request (some "k1")
          (mark_running 11 "j1" (submit 10 "j1" request (some "k1") (start none)).1)))
      (((tt, tt), refl), tt)
