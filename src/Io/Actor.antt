-- ===== src/Io/Actor.antt =====
-- imputio/src/io/mod.rs: `PollerActor`, whose loop passes each message on to the poller. The result
-- `none` is a panic of the poller, which ends the thread.
pub mod Plain
pub mod Safety
pub mod Notices
pub mod Start
mod Tests
use toy_io.Common.{ℕ, Bool, Option, none, some, List, [], ◌∷◌, ◌++◌, if◌then◌else◌}
use toy_io.Io.{IoOp}
use toy_io.Io.Crates.{Mio, Slab}
use toy_io.Io.Poller.{Operation, Poller}
use toy_io.Io.Poller

-- What one turn of the loop meets: the message that `try_recv` gives, if any, and the flag at its
-- end.
pub record Turn (Op : Type 0) : Type 0 where
  pub event : Option (IoOp Op)
  pub shutdown : Bool

module _ (m : Mio) (Notifier : Type 0) (slab : Slab (Operation m Notifier)) where
  -- The match of `run`, which ignores the results. With no message the thread may park.
  unfoldable pub handle :
      Poller m Notifier slab
      → Option (IoOp (Operation m Notifier))
      → Option (Poller m Notifier slab × List (Notifier × m.Event))
  handle p none = some (p, [])
  handle p (some (IoOp.submit op)) = elim (Poller.push_token_entry m Notifier slab p op) [
    | none ↦ none
    | some (p', _) ↦ some (p', [])
  ]
  handle p (some IoOp.poll) = elim (Poller.poll m Notifier slab p) [
    | none ↦ none
    | some (p', _, sent) ↦ some (p', sent)
  ]

  -- The loop, over what its turns meet: the poller at its end, and all that was sent.
  unfoldable pub run_loop :
      Poller m Notifier slab
      → List (Turn (Operation m Notifier))
      → Option (Poller m Notifier slab × List (Notifier × m.Event))
  unfolding handle
  run_loop p [] = some (p, [])
  run_loop p (turn ∷ turns) = elim (handle p turn.event) [
    | none ↦ none
    | some (p', sent) ↦ if turn.shutdown then some (p', sent) else elim (run_loop p' turns) [
      | none ↦ none
      | some (last, rest) ↦ some (last, sent ++ rest)
    ]
  ]

  -- `id` is the identifier of the actor's thread.
  unfoldable pub run :
      ℕ
      → Poller m Notifier slab
      → List (Turn (Operation m Notifier))
      → Option (Poller m Notifier slab × List (Notifier × m.Event))
  unfolding run_loop
  run id p turns = run_loop (Poller.set_id m Notifier slab p id) turns
