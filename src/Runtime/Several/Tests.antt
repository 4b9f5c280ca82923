-- ===== src/Runtime/Several/Tests.antt =====
-- imputio/src/runtime.rs: two runtimes of one process, with two executors each.
use toy_io.Common.{ℕ, ◌≡◌, ◌≢◌, refl, Bool, false, some, List, [], ◌∷◌, ◌++◌, get_elem?, arith}
use toy_io.Runtime.{done, start_all, Outcome, start, store, stop_after, stop, after_poll}
use toy_io.Runtime
use toy_io.Coordinator.{ExecHandleCoordinator, initialize, shut_down}
use toy_io.Coordinator
use toy_io.Config
use toy_io.Runtime.Samples.{one_notice, counting, start_counted, rt}
use toy_io.Runtime.Actions.{Action, step}
use toy_io.Runtime.Several.{Own, Several, steps_of}
use toy_io.Runtime.Several.Orphans
use toy_io.Runtime.Several.Orphans.{Startable}

abbrev own : Own Bool
own = record { rt = rt false; shutdown = false; polling = 0 }

abbrev two_runtimes : Several ℕ Bool
two_runtimes = record { runtimes = own ∷ own ∷ []; executor = Coordinator.new 0; replaced = [] }

startable :
    (i : ℕ)
    → get_elem? two_runtimes.runtimes i ≡ some own
    → Startable counting one_notice 0 start_counted two_runtimes i own (1 ∷ 1 ∷ [])
unfolding start_all Config.with_cfg
startable i e = (e, refl, refl)

first_second : ◌≢◌ {A = ℕ} 0 1
first_second e = absurd (omega (arith, e))

abbrev later : List (ℕ × Action ℕ)
later = (0, Action.shutdown) ∷ (1, Action.turn) ∷ (1, Action.shutdown) ∷ []

abbrev reached_from : Outcome (Several ℕ Bool) → Several ℕ Bool
reached_from (done s) = s
reached_from _ = two_runtimes

reached : Several ℕ Bool
reached = reached_from (
    steps_of counting one_notice 0 start_counted two_runtimes
      ((0, Action.run 7) ∷ (1, Action.run 8) ∷ later))

second_run_orphans_example :
    (before after : List (ExecHandleCoordinator ℕ)) × (reached.replaced
      ≡ before ++ initialize (1 ∷ 1 ∷ []) ∷ after)
    × ((initialize {H = ℕ} (1 ∷ 1 ∷ [])).shutdown ≡ false)
unfolding reached steps_of step Runtime.run start start_all store Runtime.shutdown stop_after stop
    Runtime.turn after_poll Coordinator.poll Coordinator.handle_poll Config.with_cfg Coordinator.new
second_run_orphans_example =
    Orphans.second_run_orphans counting one_notice 0 start_counted two_runtimes reached 0 1 7 8 own
      own (1 ∷ 1 ∷ []) (1 ∷ 1 ∷ []) later first_second (startable 0 refl) (startable 1 refl) refl
