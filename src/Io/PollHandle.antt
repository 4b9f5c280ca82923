-- ===== src/Io/PollHandle.antt =====
-- imputio/src/io/mod.rs: `PollHandle`, which sends the messages to the I/O actor. `N` is the state
-- of the channel, and `send` is flume's: `none` when the actor is gone.
use toy_io.Common.{Option, none, some}
use toy_io.Io.{IoOp, Result, ok, err, actor_send_error}

abbrev pub sent : {N : Type 0} → N → Option N → N × Result (Unit {0})
sent n none = (n, err actor_send_error)
sent n (some n') = (n', ok tt)

module _ {N Operation : Type 0} (send : N → IoOp Operation → Option N) where
  unfoldable pub submit_op : N → Operation → N × Result (Unit {0})
  submit_op n op = sent n (send n (IoOp.submit op))

  unfoldable pub poll : N → N × Result (Unit {0})
  poll n = sent n (send n IoOp.poll)
