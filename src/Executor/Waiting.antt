-- ===== src/Executor/Waiting.antt =====
-- imputio/src/executor/handle.rs and `blocking_await` of imputio/src/task/mod.rs: several executors
-- whose futures may wait for the handle of a task. Such a wait happens inside a poll, so it stops
-- the whole thread of the executor. `none` is the panic of an index out of range.
pub mod Runs
pub mod Lacks
pub mod Stuck
pub mod Steps
pub mod Deadlock
pub mod Calm
pub mod Arrives
mod Tests
use toy_io.Common.{
  true, false, ℕ, suc, ◌≡◌, Bool, Option, none, some, List, [], ◌∷◌, ◌++◌, get_elem?, set,
  if◌then◌else◌, ◌==◌,
}
use toy_io.Task.{Poll, ready, pending, ImputioTask, Priority}
use toy_io.Task.Handle.{Reply, Received, blocking_await}
use toy_io.Io.{IoOp}
use toy_io.Io.PollHandle
use toy_io.Executor.Protocol.{Transaction}
use toy_io.Executor.{Executor, get_task, spawn, push_to_poller}

-- A poll of a user's future returns, or it waits for the handle of this number. Then the future is
-- what goes on with what `blocking_await` returns.
pub data Polled (F T : Type 0) : Type 0 where
  returns : F → Poll T → Polled F T
  waits : ℕ → F → Polled F T

-- The future of a spawned task: the number of its handle, and the user's future.
abbrev pub Spawned : Type 0 → Type 0
Spawned F = ℕ × F

abbrev pub update : {A : Type 0} → (ℕ → A) → ℕ → A → ℕ → A
update f k a j = if k == j then a else f j

abbrev pub with_future : {F : Type 0} → ImputioTask (Spawned F) → F → ImputioTask (Spawned F)
with_future task f = record task { future = (task.future.0, f) }

module _ (F T N Operation R : Type 0) where
  -- An executor, the messages in its channel, the task whose poll waits, with the handle that it
  -- waits for, and whether its loop has ended.
  pub record Thread : Type 0 where
    pub executor : Executor (Spawned F) N
    pub messages : List (Transaction (Spawned F) Operation R)
    pub waiting : Option (ℕ × ImputioTask (Spawned F))
    pub ended : Bool

  -- The threads, the channels of the handles, and the number of the next handle.
  pub record System : Type 0 where
    pub threads : List Thread
    pub replies : ℕ → Reply T
    pub fresh : ℕ

module _ {F T N Operation R : Type 0} where
  abbrev pub put :
      System F T N Operation R → ℕ → Thread F T N Operation R → System F T N Operation R
  put s i th = record s { threads = set s.threads i th }

  abbrev pub put_executor :
      System F T N Operation R
      → ℕ
      → Thread F T N Operation R
      → Option (Executor (Spawned F) N)
      → Option (System F T N Operation R)
  put_executor s i th none = none
  put_executor s i th (some ex) = some (put s i (record th { executor = ex; waiting = none }))

  -- What a poll of the task leaves behind: the value is sent, or the task is requeued, or the
  -- thread waits.
  unfoldable pub settle :
      System F T N Operation R
      → ℕ
      → Thread F T N Operation R
      → ImputioTask (Spawned F)
      → Polled F T
      → Option (System F T N Operation R)
  settle s i th task (returns f (ready val)) =
      let sent = record s { replies = update s.replies task.future.0 (Reply.sent val) } in
      some (put sent i (record th { waiting = none }))
  settle s i th task (returns f pending) =
      put_executor s i th (spawn th.executor (with_future task f))
  settle s i th task (waits k f) =
      some (put s i (record th { waiting = some (k, with_future task f) }))

  abbrev pub send_to :
      System F T N Operation R
      → ℕ
      → Transaction (Spawned F) Operation R
      → Option (Thread F T N Operation R)
      → System F T N Operation R
  send_to s i msg none = s
  send_to s i msg (some th) =
      if th.ended then s else put s i (record th { messages = th.messages ++ msg ∷ [] })

  -- A message to the executor `i`. One that is gone gets no message: the send is refused, and a
  -- task that was sent is dropped, which keeps its future, as nothing drops what `ImputioTask`
  -- points to; so its channel stays open.
  unfoldable pub send_at :
      System F T N Operation R → ℕ → Transaction (Spawned F) Operation R → System F T N Operation R
  send_at s i msg = send_to s i msg (get_elem? s.threads i)

  -- `ExecHandle::spawn` to the executor `i`, with a new handle.
  unfoldable pub spawn_at : System F T N Operation R → ℕ → F → Priority → System F T N Operation R
  unfolding send_at
  spawn_at s i future priority =
      let task : ImputioTask (Spawned F) = record {
        future = (s.fresh, future);
        priority = priority;
      } in
      let s' = record s {
        replies = update s.replies s.fresh Reply.open_yet;
        fresh = suc s.fresh;
      } in
      send_at s' i (Transaction.spawn task)

  abbrev pub end_unless :
      System F T N Operation R
      → ℕ
      → Thread F T N Operation R
      → Option (ℕ × ImputioTask (Spawned F))
      → System F T N Operation R
  end_unless s i th none = put s i (record th { ended = true })
  end_unless s i th (some _) = s

  abbrev pub end_thread :
      System F T N Operation R → ℕ → Option (Thread F T N Operation R) → System F T N Operation R
  end_thread s i none = s
  end_thread s i (some th) = end_unless s i th th.waiting

  -- The end of a turn of the loop, which loads the shutdown flag. A thread that waits in a poll
  -- does not come to it.
  abbrev pub check_flag :
      Bool → ℕ → Option (System F T N Operation R) → Option (System F T N Operation R)
  check_flag false i o = o
  check_flag true i none = none
  check_flag true i (some s) = some (end_thread s i (get_elem? s.threads i))

module _ {E F T N Operation R : Type 0} (io fairness : Bool) (poll_future : E → F → Polled F T)
    (go_on : E → F → Received T → Polled F T) (send : N → IoOp Operation → Option N) where
  abbrev poll_task_at :
      E
      → System F T N Operation R
      → ℕ
      → Thread F T N Operation R
      → Option (ImputioTask (Spawned F))
      → Option (System F T N Operation R)
  poll_task_at env s i th none = some (put s i th)
  poll_task_at env s i th (some task) = settle s i th task (poll_future env task.future.1)

  -- The I/O actor is told to poll, and then one task is polled.
  unfoldable pub poll_from :
      E
      → Bool
      → System F T N Operation R
      → ℕ
      → Thread F T N Operation R
      → Option (System F T N Operation R)
  unfolding settle
  poll_from env coin s i th =
      let n = th.executor.poll_handle in
      let n' = if io then (PollHandle.poll send n).0 else n in
      let (tasks, task) = get_task fairness coin th.executor.tasks in
      let ex = record th.executor { tasks = tasks; poll_handle = n' } in
      poll_task_at env s i (record th { executor = ex }) task

  -- The match of the executor's loop.
  unfoldable pub handle_from :
      E
      → Bool
      → System F T N Operation R
      → ℕ
      → Thread F T N Operation R
      → Transaction (Spawned F) Operation R
      → Option (System F T N Operation R)
  unfolding poll_from
  handle_from env coin s i th (Transaction.spawn task) =
      put_executor s i th (spawn th.executor task)
  handle_from env coin s i th Transaction.poll = poll_from env coin s i th
  handle_from env coin s i th (Transaction.submit_io_op op reply) =
      put_executor s i th (some (push_to_poller send th.executor op).0)

  abbrev pub receive_from :
      E
      → Bool
      → System F T N Operation R
      → ℕ
      → Thread F T N Operation R
      → List (Transaction (Spawned F) Operation R)
      → Option (System F T N Operation R)
  receive_from env coin s i th [] = some s
  receive_from env coin s i th (msg ∷ msgs) =
      handle_from env coin s i (record th { messages = msgs }) msg

  abbrev pub go_on_with :
      E
      → System F T N Operation R
      → ℕ
      → Thread F T N Operation R
      → ImputioTask (Spawned F)
      → Option (Received T)
      → Option (System F T N Operation R)
  go_on_with env s i th task none = some s
  go_on_with env s i th task (some r) = settle s i th task (go_on env task.future.1 r)

  -- What the thread does next: it takes a message, or, in a poll that waits for a handle, it goes
  -- on if the channel of the handle gives something.
  abbrev pub advance_from :
      E
      → Bool
      → System F T N Operation R
      → ℕ
      → Thread F T N Operation R
      → Option (ℕ × ImputioTask (Spawned F))
      → Option (System F T N Operation R)
  advance_from env coin s i th none = receive_from env coin s i th th.messages
  advance_from env coin s i th (some (k, task)) =
      go_on_with env s i th task (blocking_await (record { receiver = s.replies k }))

  abbrev pub advance_thread :
      E
      → (coin flag : Bool) → System F T N Operation R
      → ℕ
      → Option (Thread F T N Operation R)
      → Option (System F T N Operation R)
  advance_thread env coin flag s i none = some s
  advance_thread env coin flag s i (some th) =
      if th.ended then some s else check_flag flag i (advance_from env coin s i th th.waiting)

  -- `flag` is the shutdown flag as the thread finds it if it comes to the end of this turn.
  unfoldable pub advance :
      E → (coin flag : Bool) → System F T N Operation R → ℕ → Option (System F T N Operation R)
  unfolding handle_from settle
  advance env coin flag s i = advance_thread env coin flag s i (get_elem? s.threads i)
