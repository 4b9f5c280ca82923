-- ===== src/Api/Macros.antt =====
-- imputio/src/macros.rs: `spawn!` and `spawn_blocking!`.
use toy_io.Common.{Bool, Option, none, some}
use toy_io.Flume.{Link, Notices}
use toy_io.Task.{Priority, low}
use toy_io.Executor.Protocol.{Transaction, Result}
use toy_io.Runtime.{World, Outcome}
use toy_io.Runtime
use toy_io.Api.{imputio_spawn_blocking}

module _ {F Operation R : Type 0} (link : Link (Transaction F Operation R) R (Result (Unit {0})))
    (notices : Notices) (gone : link.Net) where
  open notices use {Chan}

  -- With one argument the priority is `Low`.
  unfoldable pub spawn : World link.Net Chan → F → Option Priority → Outcome (World link.Net Chan)
  unfolding Runtime.spawn
  spawn w future none =
      Runtime.spawn link notices gone w (record { future = future; priority = low })
  spawn w future (some priority) =
      Runtime.spawn link notices gone w (record { future = future; priority = priority })

unfoldable pub spawn_blocking : {T : Type 0} → (Bool → Option (Bool × T)) → Bool → Option (Bool × T)
unfolding imputio_spawn_blocking
spawn_blocking result flag = imputio_spawn_blocking result flag
