-- ===== src/Executor/Deliveries/Tests.antt =====
-- imputio/src/executor/handle.rs: an executor with the tasks of examples/block_on/main.rs.
use mathlib.Core.List.{Perm}
use toy_io.Common.{
  ℕ, suc, ◌≡◌, refl, Bool, true, false, Option, none, some, List, [], ◌∷◌, ◌++◌, arith,
}
use toy_io.Task.{Poll, high, low, spawned, poll_task, poll_inner}
use toy_io.Io.{IoOp}
use toy_io.Io.PollHandle
use toy_io.Executor.Protocol.{Transaction, Turn, Result}
use toy_io.Executor.{
  Executor, initialize, run, handle, spawn, with_tasks, push_back_at, poll, poll_io, get_task,
  find_pop, poll_next, requeue,
}
use toy_io.Executor.Queues.{IsValid, all_tasks, initialize-IsValid}
use toy_io.Executor.Progress
use toy_io.Executor.Rounds.{poll_each}
use toy_io.Executor.Values.{enqueued, values}
use toy_io.Executor.Deliveries
use toy_io.Executor.Deliveries.{all_sent, all_new, owed}
use toy_io.Examples.Countdown
use toy_io.Examples.Countdown.{ExampleTask, poll-falls, poll-keeps, poll-right}

abbrev Spawned : Type 0
Spawned = ExampleTask × Option ℕ

abbrev start_of : ExampleTask → ℕ
start_of t = t.start

abbrev count_of : ExampleTask → ℕ
count_of t = t.count

abbrev counting : Bool → ExampleTask → ExampleTask × Poll ℕ
counting = Countdown.poll

abbrev send_counted : ℕ → IoOp ℕ → Option ℕ
send_counted n op = some (suc n)

abbrev turn : Option (Transaction Spawned ℕ ℕ) → Turn Bool Spawned ℕ ℕ
turn event = record { event = event; env = true; coin = true; shutdown = false }

abbrev turns : List (Turn Bool Spawned ℕ ℕ)
turns =
    turn (
      some (
        Transaction.spawn
          (enqueued counting (record { future = Countdown.new 2; priority = high }))))
    ∷ turn (some Transaction.poll)
    ∷ turn none
    ∷ turn (
        some (
          Transaction.spawn
            (enqueued counting (record { future = Countdown.new 0; priority = low }))))
    ∷ []

abbrev idle : Executor Spawned ℕ
idle = initialize 0 none

idle-IsValid : IsValid idle
idle-IsValid = initialize-IsValid 0 none

abbrev owing : Executor Spawned ℕ
owing = record {
  tasks =
      []
      ∷ (record { future = (record { count = 1; start = 2 }, none); priority = high } ∷ [])
      ∷ []
      ∷ (record { future = (record { count = 0; start = 0 }, none); priority = low } ∷ [])
      ∷ []
      ∷ [];
  poll_handle = 1;
  parking = none;
}

run-promised_example :
    (ex' : Executor Spawned ℕ) × (out : List (ℕ × Result (Unit {0}))) × (run true false
        (spawned counting)
        send_counted
        idle
        turns
      ≡ some (ex', out))
    × IsValid ex'
    × Perm
        (all_sent true counting send_counted idle turns ++ owed start_of (all_tasks ex'.tasks))
        (owed start_of (all_new turns) ++ owed start_of (all_tasks idle.tasks))
run-promised_example =
    Deliveries.run-promised counting start_of poll-keeps poll-right true send_counted turns idle
      idle-IsValid

spawned-values_example :
    (last : Executor Spawned ℕ) × (poll_each true
        (spawned counting)
        send_counted
        (true ∷ true ∷ false ∷ [])
        owing
      ≡ some last)
    × (all_tasks last.tasks ≡ [])
    × Perm
        (all_sent true counting send_counted idle turns
          ++ values true counting send_counted (true ∷ true ∷ false ∷ []) owing)
        (some 2 ∷ some 0 ∷ [])
unfolding Progress.total_work Progress.work_of initialize enqueued Countdown.new run handle spawn
    with_tasks push_back_at poll poll_io get_task find_pop poll_next requeue poll_task poll_inner
    spawned Countdown.poll PollHandle.poll
spawned-values_example =
    Deliveries.spawned-values counting start_of count_of poll-falls poll-keeps poll-right true
      send_counted turns (true ∷ true ∷ false ∷ []) idle owing [] idle-IsValid refl (omega arith)
