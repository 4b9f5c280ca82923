-- ===== src/Io.antt =====
-- imputio/src/io/mod.rs: the errors of the I/O side, and the messages to its actor.
pub mod PollHandle
pub mod Crates
pub mod Poller
pub mod Actor
use Prim.Native.String.{String}

pub data PollError : Type 0 where
  resource_exhaustion actor_rcv_error actor_send_error io_error : PollError
  actor_error : String → PollError

pub data Result {ℓ} (A : Type ℓ) : Type ℓ where
  ok : A → Result A
  err : PollError → Result A

pub data IoOp (Operation : Type 0) : Type 0 where
  submit : Operation → IoOp Operation
  poll : IoOp Operation
