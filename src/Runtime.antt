-- ===== src/Runtime.antt =====
-- imputio/src/runtime.rs: `ImputioRuntime`, the global `EXECUTOR` of imputio/src/lib.rs, and the
-- thread that `run` starts, which tells the executors to poll. `H` is a handle of an executor,
-- `gone` one whose executor is gone. `start_thread` starts the threads of an executor
-- (`ExecHandle::initialize`); `none` is its error.
pub mod Builder
pub mod Actions
pub mod Sound
pub mod Lifecycle
pub mod Shutdown
pub mod Several
pub mod UnitTests
pub mod Samples
mod Tests
use toy_io.Common.{ℕ, suc, ◌-◌, Bool, true, false, Option, none, some, List, [], ◌∷◌, if◌then◌else◌}
use toy_io.Flume.{Link, Notices}
use toy_io.Task.{ImputioTask}
use toy_io.Executor.Protocol.{Transaction, Result}
use toy_io.Config.{ExecConfig}
use toy_io.Config.ExecThread.{ExecThreadConfig}
use toy_io.Coordinator.{ExecHandleCoordinator, initialize, shut_down}
use toy_io.Coordinator

pub record ImputioRuntime : Type 0 where
  pub exec_thread_id : ℕ
  pub reserved_core_ids : List ℕ
  pub runtime_core : Option ℕ
  pub cfg : ExecConfig
  pub state : Bool

-- A runtime with what it shares: its channel of shutdown notices, the global executor, the
-- coordinators that were the global executor before, and how many threads poll.
pub record World (H Chan : Type 0) : Type 0 where
  pub rt : ImputioRuntime
  pub shutdown : Chan
  pub executor : ExecHandleCoordinator H
  pub replaced : List (ExecHandleCoordinator H)
  pub polling : ℕ

-- How a call ends; the panic of the thread that polls counts as one.
pub data Outcome (A : Type 0) : Type 0 where
  done : A → Outcome A
  blocks panics : Outcome A

module _ {H : Type 0} where
  -- The executors of a configuration, one after the other.
  unfoldable pub start_all : (ExecThreadConfig → Option H) → List ExecThreadConfig → Option (List H)
  start_all start_thread [] = some []
  start_all start_thread (cfg ∷ cfgs) = elim (start_thread cfg) [
    | none ↦ none
    | some h ↦ elim (start_all start_thread cfgs) [ none ↦ none | some hs ↦ some (h ∷ hs) ]
  ]

module _ {H Chan : Type 0} where
  -- `EXECUTOR.store(..)`
  unfoldable pub store : World H Chan → ExecHandleCoordinator H → World H Chan
  store w c = record w { executor = c; replaced = w.executor ∷ w.replaced }

  pub start : ℕ → World H Chan → Option (List H) → Outcome (World H Chan)
  unfolding store
  start thread w none = panics
  start thread w (some handles) =
      let w' = store w (initialize handles) in
      done (record w' {
        rt = record w.rt { state = true; exec_thread_id = thread };
        polling = suc w.polling;
      })

  -- `thread` is the identifier of the new thread. The sender that `run` returns is that of
  -- `shutdown`.
  pub run : (ExecThreadConfig → Option H) → ℕ → World H Chan → Outcome (World H Chan)
  unfolding start
  run start_thread thread w =
      if w.rt.state
      then done w
      else start thread w (start_all start_thread w.rt.cfg.exec_thread_config)

  -- The new channel, given by its two ends, is for notices from then on, whatever its capacity is.
  pub replace_shutdown_notifier : World H Chan → Chan → World H Chan
  replace_shutdown_notifier w chan = record w { shutdown = chan }

  -- Set the flag of the global executor, and put one without executors in its place.
  pub stop : H → World H Chan → World H Chan
  unfolding store
  stop gone w = store (record w { executor = shut_down w.executor }) (Coordinator.new gone)

module _ {H : Type 0} (notices : Notices) (gone : H) where
  open notices use {Chan, send, try_recv}

  pub stop_after : World H Chan → Option Chan → Outcome (World H Chan)
  unfolding stop
  stop_after w none = blocks
  stop_after w (some chan) = done (stop gone (record w { shutdown = chan }))

  -- `shutdown`, and `Drop`, which calls it. The send waits for room.
  pub shutdown : World H Chan → Outcome (World H Chan)
  unfolding stop_after
  shutdown w = stop_after w (send w.shutdown)

  pub after_poll : World H Chan → Option Chan → World H Chan
  unfolding stop
  after_poll w none = w
  after_poll w (some chan) = record (stop gone (record w { shutdown = chan })) {
    polling = w.polling - 1;
  }

module _ {F Operation R : Type 0} (link : Link (Transaction F Operation R) R (Result (Unit {0})))
    (notices : Notices) (gone : link.Net) where
  open notices use {Chan, try_recv}

  -- One turn of the loop of the thread that polls.
  pub turn : World link.Net Chan → Outcome (World link.Net Chan)
  unfolding after_poll
  turn w = elim (Coordinator.poll link w.executor) [
    | none ↦ panics
    | some (c, _) ↦ done (after_poll notices gone (record w { executor = c }) (try_recv w.shutdown))
  ]

  abbrev pub spawned :
      World link.Net Chan
      → Option (ExecHandleCoordinator link.Net × Unit {0})
      → Outcome (World link.Net Chan)
  spawned w none = panics
  spawned w (some (c, _)) = done (record w { executor = c })

  -- `imputio_spawn`: on the executor that is the global one when it is called.
  unfoldable pub spawn : World link.Net Chan → ImputioTask F → Outcome (World link.Net Chan)
  spawn w task = spawned w (Coordinator.spawn link w.executor task)
