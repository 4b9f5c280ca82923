-- ===== src/Api.antt =====
-- imputio/src/lib.rs and the end of imputio/src/executor/mod.rs: what users call without a handle
-- of the runtime. The global executor is an argument. `io` is the cargo feature of that name, and
-- `none` a panic.
pub mod Registration
pub mod Blocking
pub mod Entry
pub mod Channels
pub mod Arrival
pub mod Notified
pub mod Macros
pub mod Samples
mod Tests
use Prim.Native.String.{String}
use toy_io.Common.{ℕ, Bool, true, false, Option, none, some, List, if◌then◌else◌}
use toy_io.Flume.{Link}
use toy_io.Task.{Poll, ImputioTask, Priority, high, default_priority}
use toy_io.Task
use toy_io.Io.Crates.{Mio}
use toy_io.Io.Poller.{Operation, registration_fd_add, registration_tcp_add, rw_interests}
use toy_io.Executor.Protocol.{Transaction}
use toy_io.Executor.Protocol
use toy_io.Coordinator.{ExecHandleCoordinator}
use toy_io.Coordinator
use toy_io.Config.ExecThread.{ExecThreadConfig}
use toy_io.Runtime.{World, Outcome, done, blocks, panics}
use toy_io.Runtime
use toy_io.Runtime.Builder.{RuntimeError, executor_error, internal, Result, ok, err}

unfoldable pub check_io : Bool → Result (Unit {0})
check_io io = if io then ok tt else err (internal "IO feature is not currently enabled")

-- `submit_io_op(op)?`, with `#[from] ExecError`.
abbrev pub as_runtime : Protocol.Result (Unit {0}) → Result (Unit {0})
as_runtime (Protocol.ok _) = ok tt
as_runtime (Protocol.err e) = err (executor_error e)

-- `if let Some(i) = interest { i } else { .. }`
unfoldable pub interest_or_all : (m : Mio) → Option m.Interest → m.Interest
interest_or_all m none = m.add (m.add m.readable m.writable) m.priority
interest_or_all m (some i) = i

module _ {F Operation R : Type 0}
    (link : Link (Transaction F Operation R) R (Protocol.Result (Unit {0}))) where
  -- The result is beside the global executor.
  abbrev pub Called : Type 0
  Called = Option (ExecHandleCoordinator link.Net × Result (Unit {0}))

  abbrev pub submitted :
      Option (ExecHandleCoordinator link.Net × Protocol.Result (Unit {0})) → Called
  submitted none = none
  submitted (some (c, r)) = some (c, as_runtime r)

  -- `f()?` before more code.
  abbrev pub checked : Result (Unit {0}) → ExecHandleCoordinator link.Net → Called → Called
  checked (ok _) c rest = rest
  checked (err e) c rest = some (c, err e)

  unfoldable pub add_operation_to_io_poller :
      Bool → ExecHandleCoordinator link.Net → Operation → Called
  unfolding check_io
  add_operation_to_io_poller io c op =
      checked (check_io io) c (submitted (Coordinator.submit_io_op link c op))

module _ (m : Mio) {F Notifier R : Type 0}
    (link : Link (Transaction F (Operation m Notifier) R) R (Protocol.Result (Unit {0}))) where
  unfoldable pub register_fd :
      Bool → ExecHandleCoordinator link.Net → ℕ → Option m.Interest → Option Notifier → Called link
  unfolding check_io interest_or_all add_operation_to_io_poller
  register_fd io c fd interest notifier = checked link (check_io io) c (
      add_operation_to_io_poller link io c
        (registration_fd_add fd (interest_or_all m interest) notifier))

  unfoldable pub register_tcp_socket :
      Bool
      → ExecHandleCoordinator link.Net
      → m.Listener
      → Option m.Interest
      → Option Notifier
      → Called link
  unfolding check_io interest_or_all add_operation_to_io_poller
  register_tcp_socket io c listener interest notifier = checked link (check_io io) c (
      add_operation_to_io_poller link io c
        (registration_tcp_add listener (interest_or_all m interest) notifier))

-- `imputio_spawn_blocking` with the thread's `FLAG`, which `swap` reads and sets. `result` is what
-- the future gives when it is run to completion with the flag set, and the flag as it is by then.
unfoldable pub imputio_spawn_blocking :
    {T : Type 0} → (Bool → Option (Bool × T)) → Bool → Option (Bool × T)
imputio_spawn_blocking result true = none
imputio_spawn_blocking result false = elim (result true) [
  | none ↦ none
  | some (flag, res) ↦ some (false, res)
]

module _ {H Chan T : Type 0} where
  abbrev pub blocked_on : Option (Bool × (World H Chan × T)) → Outcome (Bool × (World H Chan × T))
  blocked_on none = panics
  blocked_on (some r) = done r

  -- `ImputioRuntime::block_on`: `result` is what the future gives, and what it does to the runtime.
  unfoldable pub block_on :
      (ExecThreadConfig → Option H)
      → ℕ
      → World H Chan
      → (World H Chan → Bool → Option (Bool × (World H Chan × T)))
      → Bool
      → Outcome (Bool × (World H Chan × T))
  unfolding imputio_spawn_blocking
  block_on start_thread thread w result flag = elim (Runtime.run start_thread thread w) [
    | done w' ↦ blocked_on (imputio_spawn_blocking (result w') flag)
    | blocks ↦ blocks
    | panics ↦ panics
  ]
