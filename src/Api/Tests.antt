-- ===== src/Api/Tests.antt =====
-- imputio/src/executor/mod.rs and imputio/src/lib.rs: blocking calls on one thread, and a
-- registration.
use toy_io.Common.{ℕ, suc, Bool, false, Option, some, [], ◌∷◌, arith}
use toy_io.Flume.{Link}
use toy_io.Io.Poller.{Operation}
use toy_io.Io.Poller.Samples.{small_mio}
use toy_io.Executor.Protocol.{Transaction}
use toy_io.Executor.Protocol
use toy_io.Coordinator.{ExecHandleCoordinator}
use toy_io.Coordinator.Turns.{IsValid}
use toy_io.Api.Entry
use toy_io.Coordinator
use toy_io.Runtime.{World}

-- A handle counts what was sent, and its executor accepts every operation.
abbrev accepting : Link (Transaction ℕ (Operation small_mio ℕ) ℕ) ℕ (Protocol.Result (Unit {0}))
accepting = record {
  Net = ℕ;
  bounded = λ n. (0, n);
  send = λ n m. some (suc n);
  recv = λ n r. (n, some (Protocol.ok tt));
}

abbrev two_handles : ExecHandleCoordinator ℕ
two_handles = record { handles = 10 ∷ 20 ∷ []; index = 1; shutdown = false }

two_handles-IsValid : IsValid two_handles
two_handles-IsValid = record { inside = omega arith; fits = omega arith }

-- The future is ready at once, and leaves the runtime as it is.
abbrev ready_at_once : World ℕ Bool → Bool → Option (Bool × (World ℕ Bool × ℕ))
ready_at_once w flag = some (flag, (w, 7))

abbrev nothing_runs : Entry.Globals ℕ
nothing_runs = record { executor = Coordinator.new 0; replaced = [] }
