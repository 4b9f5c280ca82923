-- ===== src/Executor/Waiting/Runs.antt =====
-- imputio/src/executor/handle.rs and `blocking_await` of imputio/src/task/mod.rs: what several
-- executors do, in any order.
use toy_io.Common.{ℕ, ◌≡◌, Bool, Option, some}
use toy_io.Task.{Priority}
use toy_io.Task.Handle.{Received}
use toy_io.Io.{IoOp}
use toy_io.Executor.Protocol.{Transaction}
use toy_io.Executor.Waiting.{Polled, System, send_at, spawn_at, advance}

module _ {E F T N Operation R : Type 0} (io fairness : Bool) (poll_future : E → F → Polled F T)
    (go_on : E → F → Received T → Polled F T) (send : N → IoOp Operation → Option N) where
  -- What may happen next: a thread goes on, or an executor is sent a message.
  pub data Step (s : System F T N Operation R) : System F T N Operation R → Type 0 where
    advances :
        {s' : System F T N Operation R} (env : E) (coin flag : Bool) (i : ℕ)
        → advance io fairness poll_future go_on send env coin flag s i ≡ some s'
        → Step s s'
    spawns :
        {s' : System F T N Operation R} (i : ℕ) (future : F) (priority : Priority)
        → s' ≡ spawn_at s i future priority
        → Step s s'
    polls : {s' : System F T N Operation R} (i : ℕ) → s' ≡ send_at s i Transaction.poll → Step s s'
    submits :
        {s' : System F T N Operation R} (i : ℕ) (op : Operation) (reply : R)
        → s' ≡ send_at s i (Transaction.submit_io_op op reply)
        → Step s s'

  pub data Reach (s : System F T N Operation R) : System F T N Operation R → Type 0 where
    here : Reach s s
    next : {t u : System F T N Operation R} → Reach s t → Step t u → Reach s u
