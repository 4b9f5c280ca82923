-- ===== src/Runtime/Tests.antt =====
-- imputio/src/runtime.rs: a runtime whose handles count, with one executor for each of two cores.
use toy_io.Common.{ℕ, refl, false, List, [], ◌∷◌, arith}
use toy_io.Task.{low}
use toy_io.Config.{with_cfg}
use toy_io.Runtime.Actions.{Action, steps}
use toy_io.Runtime.Lifecycle
use toy_io.Runtime.Sound.{IsFine}
use toy_io.Runtime.Shutdown
use toy_io.Runtime.Samples.{
  one_notice, one_at_most, counting, start_counted, fresh_world, fresh_world-IsSound,
  start_counted-some,
}

abbrev life : List (Action ℕ)
life =
    Action.run 2
    ∷ Action.spawn (record { future = 3; priority = low })
    ∷ Action.turn
    ∷ Action.shutdown
    ∷ Action.turn
    ∷ Action.run 4
    ∷ Action.shutdown
    ∷ []

steps-IsFine_example :
    IsFine counting one_notice 0 (steps counting one_notice 0 start_counted fresh_world life)
unfolding with_cfg
steps-IsFine_example =
    Lifecycle.steps-IsFine counting one_notice 0 start_counted (λ m. refl) start_counted-some life
      fresh_world (omega arith, omega arith) fresh_world-IsSound

shutdowns_lem_example : Shutdown.EndsWith counting one_notice 0 start_counted 2 0 false (
    steps counting one_notice 0 start_counted fresh_world
      (Shutdown.shutdowns counting one_notice 0 start_counted 2))
shutdowns_lem_example =
    Shutdown.shutdowns_lem counting one_notice 0 start_counted 2 fresh_world one_at_most 0 refl refl
      refl
