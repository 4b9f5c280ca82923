-- ===== src/Executor.antt =====
-- imputio/src/executor/handle.rs: the actor `Executor`, which owns the task queues of one thread.
-- `io` and `fairness` are the cargo features of those names. The array of five `VecDeque`s is a
-- list of lists; `none` is the panic of an index out of range, which the source would have there.
-- `poll_handle` is the state of the channel to the I/O actor, which flume's `send` changes.
pub mod Protocol
pub mod Queues
pub mod Priorities
pub mod Rounds
pub mod Fairness
pub mod Progress
pub mod Values
pub mod Perms
pub mod Deliveries
pub mod Every
pub mod Waiting
mod Tests
use toy_io.Common.{
  ℕ, zero, suc, Bool, true, false, ◌&&◌, Option, none, some, List, [], ◌∷◌, ◌++◌, if◌then◌else◌,
}
use toy_io.Task.{Poll, ready, pending, ImputioTask, priority_index, poll_task}
use toy_io.Io.{IoOp}
use toy_io.Io
use toy_io.Io.PollHandle
use Protocol.{Transaction, Turn, Result, ok, err, io_poller}

module _ {A : Type 0} where
  -- `queues[i].push_back(a)`
  pub push_back_at : List (List A) → ℕ → A → Option (List (List A))
  push_back_at [] i a = none
  push_back_at (q ∷ qs) zero a = some ((q ++ a ∷ []) ∷ qs)
  push_back_at (q ∷ qs) (suc i) a = elim (push_back_at qs i a) [
    | none ↦ none
    | some qs' ↦ some (q ∷ qs')
  ]

  -- `queues.iter_mut().find_map(|q| q.pop_front())`
  pub find_pop : List (List A) → List (List A) × Option A
  find_pop [] = ([], none)
  find_pop ([] ∷ qs) = let (qs', t) = find_pop qs in ([] ∷ qs', t)
  find_pop ((a ∷ q) ∷ qs) = (q ∷ qs, some a)

  -- The same on the slice `queues[2..]`.
  pub find_pop_from_2 : List (List A) → List (List A) × Option A
  unfolding find_pop
  find_pop_from_2 (q₀ ∷ q₁ ∷ qs) = let (qs', t) = find_pop qs in (q₀ ∷ q₁ ∷ qs', t)
  find_pop_from_2 qs = (qs, none)

  -- `coin` is the random Boolean that the feature fairness draws.
  pub get_task : (fairness coin : Bool) → List (List A) → List (List A) × Option A
  get_task fairness coin tasks = if fairness && coin then find_pop_from_2 tasks else find_pop tasks

pub record Executor (F N : Type 0) : Type 0 where
  pub tasks : List (List (ImputioTask F))
  pub poll_handle : N
  pub parking : Option ℕ

module _ {F N : Type 0} where
  -- The state that `Executor::initialize` makes: `[(); 5].map(|_| VecDeque::new())`.
  pub initialize : N → Option ℕ → Executor F N
  initialize poll_handle parking = record {
    tasks = [] ∷ [] ∷ [] ∷ [] ∷ [] ∷ [];
    poll_handle = poll_handle;
    parking = parking;
  }

  pub with_tasks : Executor F N → Option (List (List (ImputioTask F))) → Option (Executor F N)
  with_tasks ex none = none
  with_tasks ex (some tasks) = some (record ex { tasks = tasks })

  pub spawn : Executor F N → ImputioTask F → Option (Executor F N)
  unfolding with_tasks
  spawn ex task = with_tasks ex (push_back_at ex.tasks (priority_index task.priority) task)

module _ {E F N : Type 0} (poll_future : E → F → F × Poll (Unit {0})) where
  -- A pending task goes to the back of its queue, a finished one is dropped.
  pub requeue : Executor F N → ImputioTask F × Poll (Unit {0}) → Option (Executor F N)
  requeue ex (task, ready _) = some ex
  requeue ex (task, pending) = spawn ex task

  pub poll_next : E → Executor F N → Option (ImputioTask F) → Option (Executor F N)
  unfolding requeue
  poll_next env ex none = some ex
  poll_next env ex (some task) = requeue ex (poll_task poll_future env task)

module _ {E F N Operation : Type 0} (io fairness : Bool) (poll_future : E → F → F × Poll (Unit {0}))
    (send : N → IoOp Operation → Option N) where
  -- The I/O actor is told to poll, and an error of that is logged only.
  unfoldable pub poll_io : Executor F N → Executor F N
  poll_io ex =
      if io then record ex { poll_handle = (PollHandle.poll send ex.poll_handle).0 } else ex

  pub poll : E → Bool → Executor F N → Option (Executor F N)
  unfolding poll_io poll_next
  poll env coin ex =
      let ex₁ = poll_io ex in
      let (tasks, task) = get_task fairness coin ex₁.tasks in
      poll_next poll_future env (record ex₁ { tasks = tasks }) task

-- `submit_op(token)?`: an error of the I/O side becomes one of the executor.
abbrev as_exec : Io.Result (Unit {0}) → Result (Unit {0})
as_exec (Io.ok _) = ok tt
as_exec (Io.err e) = err (io_poller e)

module _ {F N Operation : Type 0} (send : N → IoOp Operation → Option N) where
  -- The result of `push_to_poller` goes to the reply sender.
  unfoldable pub push_to_poller : Executor F N → Operation → Executor F N × Result (Unit {0})
  push_to_poller ex op =
      let (n, r) = PollHandle.submit_op send ex.poll_handle op in
      (record ex { poll_handle = n }, as_exec r)

module _ {E F N Operation R : Type 0} (io fairness : Bool)
    (poll_future : E → F → F × Poll (Unit {0})) (send : N → IoOp Operation → Option N) where
  -- One turn of the loop, before the flag is read: the new state, and the replies. With no message
  -- the thread may park, which changes nothing here.
  unfoldable pub handle :
      Turn E F Operation R
      → Executor F N
      → Option (Transaction F Operation R)
      → Option (Executor F N × List (R × Result (Unit {0})))
  handle turn ex none = some (ex, [])
  handle turn ex (some Transaction.poll) =
      elim (poll io fairness poll_future send turn.env turn.coin ex) [
        | none ↦ none
        | some ex' ↦ some (ex', [])
      ]
  handle turn ex (some (Transaction.spawn task)) = elim (spawn ex task) [
    | none ↦ none
    | some ex' ↦ some (ex', [])
  ]
  handle turn ex (some (Transaction.submit_io_op op reply)) =
      let (ex', r) = push_to_poller send ex op in some (ex', (reply, r) ∷ [])

  -- The loop of `run`, over what its turns meet. It ends at a turn that finds the flag set.
  pub run :
      Executor F N
      → List (Turn E F Operation R)
      → Option (Executor F N × List (R × Result (Unit {0})))
  unfolding handle
  run ex [] = some (ex, [])
  run ex (turn ∷ turns) = elim (handle turn ex turn.event) [
    | none ↦ none
    | some (ex', out) ↦
        if turn.shutdown
        then some (ex', out)
        else elim (run ex' turns) [ none ↦ none | some (last, outs) ↦ some (last, out ++ outs) ]
  ]
