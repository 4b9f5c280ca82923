-- ===== src/Api/Channels.antt =====
-- imputio/src/lib.rs: what a registration relies on, the channels of the I/O actor and of an executor.
use toy_io.Common.{◌≡◌, Bool, true, false, Option, none, some, List, [], ◌∷◌, ◌++◌}
use toy_io.Flume.{Link}
use toy_io.Task.{Poll}
use toy_io.Io.{IoOp}
use toy_io.Executor.Protocol.{Transaction, Turn, actor_rcv, io_poller}
use toy_io.Executor.Protocol
use toy_io.Executor.{Executor, handle}

-- What the executor relies on: the channel of the I/O actor keeps each message, in order, until the
-- actor receives it, and refuses it when the actor is gone.
pub record IsIoChannel {N Operation : Type 0} (send : N → IoOp Operation → Option N) : Type 0 where
  pub messages : N → List (IoOp Operation)
  pub alive : N → Bool
  pub send-alive :
      (n : N) (msg : IoOp Operation)
      → alive n ≡ true
      → (n' : N) × (send n msg ≡ some n')
        × (alive n' ≡ true)
        × (messages n' ≡ messages n ++ msg ∷ [])
  pub send-gone : (n : N) (msg : IoOp Operation) → alive n ≡ false → send n msg ≡ none

-- What a handle relies on: the executor behind the channel handles the operation and its one reply
-- comes back, with the feature io. When the executor is gone, nothing is sent, and as the sender of
-- the reply is dropped with the message, no reply comes.
pub record IsExecuted {E F N Operation R : Type 0}
    (link : Link (Transaction F Operation R) R (Protocol.Result (Unit {0}))) (fairness : Bool)
    (poll_future : E → F → F × Poll (Unit {0})) (send : N → IoOp Operation → Option N)
    : Type 0 where
  pub executor : link.Net → Option (Executor F N)
  pub bounded-executor : (net : link.Net) → executor (link.bounded net).1 ≡ executor net
  pub send-handled :
      (net : link.Net) (ex ex' : Executor F N) (turn : Turn E F Operation R) (op : Operation)
      (reply : R) (r : Protocol.Result (Unit {0}))
      → executor net ≡ some ex
      → handle true fairness poll_future send turn ex (some (Transaction.submit_io_op op reply))
        ≡ some (ex', (reply, r) ∷ [])
      → (net₁ net₂ : link.Net) × (link.send net (Transaction.submit_io_op op reply) ≡ some net₁)
        × (link.recv net₁ reply ≡ (net₂, some r))
        × (executor net₂ ≡ some ex')
  pub send-gone :
      (net : link.Net) (msg : Transaction F Operation R)
      → executor net ≡ none
      → link.send net msg ≡ none
  pub recv-gone :
      (net : link.Net)
      → executor net ≡ none
      → (net' : link.Net) × (link.recv (link.bounded net).1 (link.bounded net).0 ≡ (net', none))
        × (executor net' ≡ none)
