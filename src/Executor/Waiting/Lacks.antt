-- ===== src/Executor/Waiting/Lacks.antt =====
-- imputio/src/executor/handle.rs: executors that do not have the task of a given handle, and that
-- never get it.
use toy_io.Common.{ℕ, ◌≢◌, Option, none, some, OnSome, List, [], ◌∷◌, ◌++◌}
use toy_io.Task.{ImputioTask, priority_index}
use toy_io.Executor.Protocol.{Transaction}
use toy_io.Executor.{Executor, push_back_at, with_tasks, spawn}
use toy_io.Executor.Every.{QueuesOf, push_back_at-Of}
use toy_io.Executor.Waiting.{Spawned, Thread}

module _ {F : Type 0} (k : ℕ) where
  -- The task is not that of the handle `k`.
  abbrev pub IsOther : ImputioTask (Spawned F) → Type 0
  IsOther task = task.future.0 ≢ k

  abbrev pub QueuesOther : List (List (ImputioTask (Spawned F))) → Type 0
  QueuesOther = QueuesOf IsOther

  abbrev pub MessageOther : {Operation R : Type 0} → Transaction (Spawned F) Operation R → Type 0
  MessageOther (Transaction.spawn task) = IsOther task
  MessageOther Transaction.poll = Unit
  MessageOther (Transaction.submit_io_op op reply) = Unit

  abbrev pub MessagesOther :
      {Operation R : Type 0} → List (Transaction (Spawned F) Operation R) → Type 0
  MessagesOther [] = Unit
  MessagesOther (m ∷ ms) = MessageOther m × MessagesOther ms

  pub MessagesOther-append :
      {Operation R : Type 0} (ms : List (Transaction (Spawned F) Operation R))
      (m : Transaction (Spawned F) Operation R)
      → MessagesOther ms
      → MessageOther m
      → MessagesOther (ms ++ m ∷ [])
  MessagesOther-append [] m h o = (o, tt)
  MessagesOther-append (x ∷ ms) m h o = (h.0, MessagesOther-append ms m h.1 o)

  abbrev pub WaitingOther : Option (ℕ × ImputioTask (Spawned F)) → Type 0
  WaitingOther none = Unit
  WaitingOther (some (_, task)) = IsOther task

  -- The thread has the task of the handle `k` nowhere.
  pub record Lacks {T N Operation R : Type 0} (th : Thread F T N Operation R) : Type 0 where
    pub queues : QueuesOther th.executor.tasks
    pub messages : MessagesOther th.messages
    pub waiting : WaitingOther th.waiting

  pub spawn-Other :
      {N : Type 0} (ex : Executor (Spawned F) N) (task : ImputioTask (Spawned F))
      → QueuesOther ex.tasks
      → IsOther task
      → OnSome (λ ex'. QueuesOther ex'.tasks) (spawn ex task)
  unfolding spawn
  spawn-Other ex task h o =
      kept (push_back_at ex.tasks (priority_index task.priority) task)
        (push_back_at-Of IsOther ex.tasks (priority_index task.priority) task h o)
    where
      kept :
          (r : Option (List (List (ImputioTask (Spawned F)))))
          → OnSome QueuesOther r
          → OnSome (λ ex'. QueuesOther ex'.tasks) (with_tasks ex r)
      kept none g = tt
      kept (some qs) g = g
