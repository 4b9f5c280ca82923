-- ===== src/Executor/Tests.antt =====
-- imputio/src/executor/handle.rs: polls of an executor whose futures count down.
use toy_io.Common.{
  none, get_elem?, ℕ, zero, suc, ◌<◌, ◌≡◌, refl, Bool, true, false, Option, some, List, [], ◌∷◌,
  ◌++◌, arith,
}
use toy_io.Task.{Poll, ready, pending, ImputioTask, Priority, high, medium, low, poll_task}
use toy_io.Io.{IoOp}
use toy_io.Io.PollHandle
use toy_io.Executor.Protocol.{Transaction, Turn, Result}
use toy_io.Executor.Queues
use toy_io.Executor.Queues.{IsValid, empties, all_tasks}
use toy_io.Executor.Rounds
use toy_io.Executor.Fairness
use toy_io.Executor.{Executor, push_back_at, find_pop, get_task, spawn, poll, run}

-- A future that is ready at its poll of number `n`.
abbrev countdown : Bool → ℕ → ℕ × Poll (Unit {0})
countdown env zero = (0, ready tt)
countdown env (suc n) = (n, pending)

-- A channel that counts what was sent.
abbrev send_counted : ℕ → IoOp ℕ → Option ℕ
send_counted n op = some (suc n)

abbrev task : ℕ → Priority → ImputioTask ℕ
task n priority = record { future = n; priority = priority }

-- Two tasks of the priority high, one of the priority low.
abbrev three_tasks : Executor ℕ ℕ
three_tasks = record {
  tasks = [] ∷ (task 1 high ∷ task 2 high ∷ []) ∷ [] ∷ (task 0 low ∷ []) ∷ [] ∷ [];
  poll_handle = 0;
  parking = some 10;
}

three_tasks-IsValid : IsValid three_tasks
three_tasks-IsValid = record {
  five = refl;
  levelled = (tt, ((refl, (refl, tt)), (tt, ((refl, tt), (tt, tt)))));
}

poll_takes_front :
    poll true false countdown send_counted true false three_tasks
    ≡ some (record three_tasks {
      tasks = [] ∷ (task 2 high ∷ task 0 high ∷ []) ∷ [] ∷ (task 0 low ∷ []) ∷ [] ∷ [];
      poll_handle = 1;
    })
unfolding poll get_task find_pop poll_task spawn push_back_at PollHandle.poll
poll_takes_front = refl

abbrev turns : List (Turn Bool ℕ ℕ ℕ)
turns =
    record {
      event = some (Transaction.spawn (task 1 medium));
      env = true;
      coin = true;
      shutdown = false;
    }
    ∷ record { event = some Transaction.poll; env = true; coin = true; shutdown = false }
    ∷ record {
      event = some (Transaction.submit_io_op 5 6);
      env = true;
      coin = true;
      shutdown = true;
    }
    ∷ record { event = some Transaction.poll; env = true; coin = true; shutdown = false }
    ∷ []

run-IsValid_example :
    (ex' : Executor ℕ ℕ) × (out : List (ℕ × Result (Unit {0}))) × (run true true countdown
        send_counted three_tasks turns
      ≡ some (ex', out))
    × IsValid ex'
run-IsValid_example =
    Queues.run-IsValid true true countdown send_counted turns three_tasks three_tasks-IsValid

poll_each_round_example :
    (ex' : Executor ℕ ℕ) × (Rounds.poll_each true countdown send_counted
        (true ∷ false ∷ [])
        three_tasks
      ≡ some ex')
    × (ex'.tasks
        ≡ empties 1
          ++ Rounds.once_each countdown (true ∷ false ∷ []) (task 1 high ∷ task 2 high ∷ [])
            ∷ ([] ∷ (task 0 low ∷ []) ∷ [] ∷ []))
unfolding poll_task
poll_each_round_example =
    Rounds.poll_each_round true countdown send_counted (true ∷ false ∷ [])
      (task 1 high ∷ task 2 high ∷ []) 1 ([] ∷ (task 0 low ∷ []) ∷ [] ∷ []) three_tasks
      three_tasks-IsValid (refl, (refl, tt)) refl

countdown-falls : (env : Bool) (n : ℕ) → (countdown env n).1 ≡ pending → (countdown env n).0 < n
countdown-falls env zero e = cc
countdown-falls env (suc n) e = omega arith

-- Two tasks of the priority high, which would keep those of the priority low from their polls.
abbrev crowded : Executor ℕ ℕ
crowded = record {
  tasks = [] ∷ (task 9 high ∷ task 8 high ∷ []) ∷ [] ∷ (task 3 low ∷ task 0 low ∷ []) ∷ [] ∷ [];
  poll_handle = 0;
  parking = none;
}

abbrev coins : List (Bool × Bool)
coins = (true, false) ∷ (true, true) ∷ (false, false) ∷ (true, true) ∷ []

fairness_reaches_example :
    (i : ℕ) × (get_elem? (Fairness.taken true countdown send_counted coins crowded) i
      ≡ some (some (task 0 low)))
fairness_reaches_example =
    Fairness.fairness_reaches true countdown send_counted coins crowded 1 (task 0 low)
      (task 3 low ∷ [])
      (record {
        five = refl;
        levelled = (tt, ((refl, (refl, tt)), (tt, ((refl, (refl, tt)), (tt, tt)))));
      })
      ([], task 9 high ∷ task 8 high ∷ [], [], [] ∷ [], refl) (omega arith)
