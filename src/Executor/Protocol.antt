-- ===== src/Executor/Protocol.antt =====
-- imputio/src/executor/handle.rs: what the executor's loop receives.
use toy_io.Common.{Bool, Option}
use toy_io.Task.{ImputioTask}
use toy_io.Io.{PollError}

pub data ExecError : Type 0 where
  actor_rcv actor_send std_io : ExecError
  io_poller : PollError → ExecError

pub data Result {ℓ} (A : Type ℓ) : Type ℓ where
  ok : A → Result A
  err : ExecError → Result A

-- What a handle sends. `R` is the type of reply senders.
pub data Transaction (F Operation R : Type 0) : Type 0 where
  spawn : ImputioTask F → Transaction F Operation R
  poll : Transaction F Operation R
  submit_io_op : Operation → R → Transaction F Operation R

-- What one turn of the executor's loop meets: the message that `try_recv` gives, if any; the
-- environment of the futures and the coin, if it polls; and the shutdown flag at its end.
pub record Turn (E F Operation R : Type 0) : Type 0 where
  pub event : Option (Transaction F Operation R)
  pub env : E
  pub coin : Bool
  pub shutdown : Bool
