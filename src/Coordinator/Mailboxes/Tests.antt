-- ===== src/Coordinator/Mailboxes/Tests.antt =====
-- imputio/src/executor/handle.rs: three tasks for two executors whose channels are lists.
use mathlib.Core.List.{Perm}
use toy_io.Common.{ℕ, ◌≡◌, refl, false, none, some, List, [], ◌∷◌, ◌++◌, map, arith}
use toy_io.Flume.{Link}
use toy_io.Task.{ImputioTask, Priority, high, low}
use toy_io.Executor.Protocol.{Transaction, Result}
use toy_io.Coordinator.{ExecHandleCoordinator}
use toy_io.Coordinator.Turns.{IsValid}
use toy_io.Coordinator.Mailboxes
use toy_io.Coordinator.Mailboxes.{IsMailbox, spawn_each}

abbrev Message : Type 0
Message = Transaction ℕ ℕ ℕ

abbrev lists : Link Message ℕ (Result (Unit {0}))
lists = record {
  Net = List Message;
  bounded = λ net. (0, net);
  send = λ net m. some (net ++ m ∷ []);
  recv = λ net r. (net, none);
}

abbrev list_mailbox : IsMailbox lists
list_mailbox = record {
  messages = λ net. net;
  Alive = λ net. Unit;
  send-alive = λ net m a. (net ++ m ∷ [], refl, tt, refl);
}

abbrev two_executors : ExecHandleCoordinator (List Message)
two_executors = record { handles = (Transaction.poll ∷ []) ∷ [] ∷ []; index = 1; shutdown = false }

two_executors-IsValid : IsValid two_executors
two_executors-IsValid = record { inside = omega arith; fits = omega arith }

abbrev task : ℕ → Priority → ImputioTask ℕ
task n priority = record { future = n; priority = priority }

abbrev three_tasks : List (ImputioTask ℕ)
three_tasks = task 1 high ∷ task 2 low ∷ task 3 high ∷ []

spawn_each-perm_example :
    (c' : ExecHandleCoordinator (List Message)) × (spawn_each lists list_mailbox two_executors
        three_tasks
      ≡ some c')
    × IsValid c'
    × Mailboxes.AllAlive lists list_mailbox c'.handles
    × Perm
        (Mailboxes.waiting lists list_mailbox c'.handles)
        (map (λ t. Transaction.spawn t) three_tasks ++ Transaction.poll ∷ [])
spawn_each-perm_example =
    Mailboxes.spawn_each-perm lists list_mailbox three_tasks two_executors two_executors-IsValid
      (tt, (tt, tt))
