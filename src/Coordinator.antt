-- ===== src/Coordinator.antt =====
-- imputio/src/executor/handle.rs: `ExecHandle`, the sending side of one executor, and
-- `ExecHandleCoordinator`, which hands each call to the next handle in turn. `link` is the channel
-- of an executor; a handle is its state. `none` is a panic.
pub mod Turns
pub mod Callers
pub mod Mailboxes
pub mod Threads
mod Tests
use Prim.Native.Nat.{◌^◌}
use toy_io.Common.{
  ℕ, zero, suc, ◌+◌, ◌%◌, Bool, true, false, Option, none, some, List, [], ◌∷◌, length, get_elem?,
  set, if◌then◌else◌, ◌==◌,
}
use toy_io.Flume.{Link}
use toy_io.Task.{ImputioTask}
use toy_io.Executor.Protocol.{Transaction, Result, ok, err, actor_rcv}

abbrev pub usize_mod : ℕ
usize_mod = 2 ^ 64

pub record ExecHandleCoordinator (H : Type 0) : Type 0 where
  pub handles : List H
  pub index : ℕ
  pub shutdown : Bool

module _ {H : Type 0} where
  -- `ExecHandleCoordinator::new`: one handle, whose executor is gone at once.
  unfoldable pub new : H → ExecHandleCoordinator H
  new gone = record { handles = gone ∷ []; index = 0; shutdown = false }

  -- `initialize`, over the handles of the configured executors.
  unfoldable pub initialize : List H → ExecHandleCoordinator H
  initialize handles = record { handles = handles; index = 0; shutdown = false }

  -- `(index + 1) % handles.len()`, where a remainder by zero panics.
  unfoldable pub next_index : ExecHandleCoordinator H → Option ℕ
  next_index c =
      if length c.handles == 0 then none else some ((c.index + 1) % usize_mod % length c.handles)

  -- The index is stored, and the call is made on `handles[index]`.
  unfoldable pub dispatch_at :
      {A : Type 0}
      → ExecHandleCoordinator H
      → (H → H × A)
      → ℕ
      → Option H
      → Option (ExecHandleCoordinator H × A)
  dispatch_at c call i none = none
  dispatch_at c call i (some h) =
      let (h', a) = call h in some (record c { handles = set c.handles i h'; index = i }, a)

  unfoldable pub dispatch :
      {A : Type 0} → ExecHandleCoordinator H → (H → H × A) → Option (ExecHandleCoordinator H × A)
  unfolding next_index dispatch_at
  dispatch c call = elim (next_index c) [
    | none ↦ none
    | some i ↦ dispatch_at c call i (get_elem? c.handles i)
  ]

  -- Sets the flag that all executors and pollers of this coordinator read.
  unfoldable pub shut_down : ExecHandleCoordinator H → ExecHandleCoordinator H
  shut_down c = record c { shutdown = true }

module _ {F Operation R : Type 0}
    (link : Link (Transaction F Operation R) R (Result (Unit {0}))) where
  open link use {Net, bounded, send, recv}

  -- An error of the channel is logged, and the handle stays as it was.
  abbrev pub after : Net → Option Net → Net
  after h none = h
  after h (some h') = h'

  unfoldable pub handle_spawn : ImputioTask F → Net → Net × Unit {0}
  handle_spawn task h = (after h (send h (Transaction.spawn task)), tt)

  unfoldable pub handle_poll : Net → Net × Unit {0}
  handle_poll h = (after h (send h Transaction.poll), tt)

  abbrev answer : Option (Result (Unit {0})) → Result (Unit {0})
  answer none = err actor_rcv
  answer (some r) = r

  -- The reply is awaited also if the message could not be sent.
  unfoldable pub handle_submit_io_op : Operation → Net → Net × Result (Unit {0})
  handle_submit_io_op op h =
      let (reply, h₁) = bounded h in
      let h₂ = after h₁ (send h₁ (Transaction.submit_io_op op reply)) in
      let (h₃, r) = recv h₂ reply in (h₃, answer r)

  unfoldable pub spawn :
      ExecHandleCoordinator Net → ImputioTask F → Option (ExecHandleCoordinator Net × Unit {0})
  unfolding handle_spawn dispatch
  spawn c task = dispatch c (handle_spawn task)

  unfoldable pub poll : ExecHandleCoordinator Net → Option (ExecHandleCoordinator Net × Unit {0})
  unfolding handle_poll dispatch
  poll c = dispatch c handle_poll

  unfoldable pub submit_io_op :
      ExecHandleCoordinator Net → Operation → Option (ExecHandleCoordinator Net × Result (Unit {0}))
  unfolding handle_submit_io_op dispatch
  submit_io_op c op = dispatch c (handle_submit_io_op op)
