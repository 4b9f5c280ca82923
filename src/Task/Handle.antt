-- ===== src/Task/Handle.antt =====
-- imputio/src/task/mod.rs: `ImputioTaskHandle`, the receiving end of the channel that the future of
-- a spawned task sends its value to. The channel has room for that one value.
use toy_io.Common.{Option, none, some}
use toy_io.Task.{Poll, ready, pending}

-- What is in the channel: nothing yet; the value; nothing, and the sender is gone.
pub data Reply (T : Type 0) : Type 0 where
  open_yet closed : Reply T
  sent : T → Reply T

-- `Result<T, flume::RecvError>`
pub data Received (T : Type 0) : Type 0 where
  ok : T → Received T
  recv_error : Received T

pub record ImputioTaskHandle (T : Type 0) : Type 0 where
  pub receiver : Reply T

module _ {T : Type 0} where
  -- `recv`; with `none` the thread waits.
  unfoldable pub recv : Reply T → Option (Received T)
  recv Reply.open_yet = none
  recv Reply.closed = some Received.recv_error
  recv (Reply.sent val) = some (Received.ok val)

  unfoldable pub blocking_await : ImputioTaskHandle T → Option (Received T)
  unfolding recv
  blocking_await h = recv h.receiver

  abbrev polled : Option (Received T) → Poll (Received T)
  polled none = pending
  polled (some r) = ready r

  -- One poll of the future of `async_await`, which `recv_async` decides.
  unfoldable pub async_await : ImputioTaskHandle T → Poll (Received T)
  unfolding recv
  async_await h = polled (recv h.receiver)

  -- `ImputioTaskHandle::receiver`
  unfoldable pub into_receiver : ImputioTaskHandle T → Reply T
  into_receiver h = h.receiver
