-- ===== src/Runtime/Actions.antt =====
-- imputio/src/runtime.rs: the life of one runtime, as a sequence of what its owner, its users and
-- the thread that polls do, in any order. `step` and `steps` compose the calls of `Runtime`.
use toy_io.Common.{ℕ, Option, none, some, List, [], ◌∷◌, if◌then◌else◌, ◌==◌}
use toy_io.Flume.{Link, Notices}
use toy_io.Task.{ImputioTask}
use toy_io.Executor.Protocol.{Transaction, Result}
use toy_io.Config.ExecThread.{ExecThreadConfig}
use toy_io.Runtime.{
  World, Outcome, done, blocks, panics, store, start_all, start, stop, stop_after, after_poll,
}
use toy_io.Runtime

-- `run`, with the new thread's identifier; `shutdown` or the drop of the runtime; a notice that a
-- user sends through the sender that `run` returned; one turn of the thread that polls; `spawn`.
pub data Action (F : Type 0) : Type 0 where
  run : ℕ → Action F
  shutdown : Action F
  notify : Action F
  turn : Action F
  spawn : ImputioTask F → Action F

module _ {F Operation R : Type 0} (link : Link (Transaction F Operation R) R (Result (Unit {0})))
    (notices : Notices) (gone : link.Net) (start_thread : ExecThreadConfig → Option link.Net) where
  open link use {Net}
  open notices use {Chan, queued}

  abbrev pub notified : World Net Chan → Option Chan → Outcome (World Net Chan)
  notified w none = blocks
  notified w (some chan) = done (record w { shutdown = chan })

  -- The thread has turns only while it polls.
  unfoldable pub step : World Net Chan → Action F → Outcome (World Net Chan)
  step w (Action.run thread) = Runtime.run start_thread thread w
  step w Action.shutdown = Runtime.shutdown notices gone w
  step w Action.notify = notified w (notices.send w.shutdown)
  step w Action.turn = if w.polling == 0 then done w else Runtime.turn link notices gone w
  step w (Action.spawn task) = Runtime.spawn link notices gone w task

  unfoldable pub steps : World Net Chan → List (Action F) → Outcome (World Net Chan)
  steps w [] = done w
  steps w (a ∷ acts) = elim (step w a) [
    | done w' ↦ steps w' acts
    | blocks ↦ blocks
    | panics ↦ panics
  ]
