-- ===== src/Executor/Waiting/Tests.antt =====
-- imputio/src/executor/handle.rs: two executors, and a task that waits for one of its own executor.
use toy_io.Common.{
  ℕ, zero, suc, ◌<◌, ◌≡◌, ◌≢◌, refl, Bool, true, false, Option, none, some, List, [], ◌∷◌, arith,
  get_elem?,
}
use mathlib.Core.Option.{some-injective}
use toy_io.Task.{ready, pending, ImputioTask, high}
use toy_io.Task.Handle.{Reply, Received}
use toy_io.Io.{IoOp}
use toy_io.Executor.Protocol.{Transaction}
use toy_io.Executor.Progress.{total_work}
use toy_io.Executor.{find_pop, get_task}
use toy_io.Executor.Waiting.Lacks.{Lacks}
use toy_io.Executor.Waiting.Deadlock
use toy_io.Executor.Waiting.Arrives
use toy_io.Executor.Waiting.Arrives.{poll_times}
use toy_io.Executor.Waiting.Calm.{CalmStep, finishes, goes_on}
use toy_io.Executor.Waiting.{Polled, returns, waits, Thread, System, settle, check_flag, advance}
use toy_io.Executor.Waiting.Runs.{Reach}

-- The future 0 waits for the handle 0, the others stay pending.
abbrev poll_future : Bool → ℕ → Polled ℕ ℕ
poll_future env zero = waits 0 0
poll_future env (suc n) = returns (suc n) pending

abbrev go_on : Bool → ℕ → Received ℕ → Polled ℕ ℕ
go_on env f r = returns f pending

abbrev send : ℕ → IoOp ℕ → Option ℕ
send n op = some (suc n)

abbrev task : ℕ → ℕ → ImputioTask (ℕ × ℕ)
task handle future = record { future = (handle, future); priority = high }

abbrev waiter_first : List (List (ImputioTask (ℕ × ℕ)))
waiter_first = [] ∷ (task 1 0 ∷ task 0 1 ∷ []) ∷ [] ∷ [] ∷ [] ∷ []

abbrev thread_with :
    List (List (ImputioTask (ℕ × ℕ))) → List (Transaction (ℕ × ℕ) ℕ ℕ) → Thread ℕ ℕ ℕ ℕ ℕ
thread_with tasks messages = record {
  executor = record { tasks = tasks; poll_handle = 0; parking = none };
  messages = messages;
  waiting = none;
  ended = false;
}

abbrev first : Thread ℕ ℕ ℕ ℕ ℕ
first = thread_with waiter_first (Transaction.poll ∷ [])

abbrev second : Thread ℕ ℕ ℕ ℕ ℕ
second = thread_with ([] ∷ [] ∷ [] ∷ [] ∷ [] ∷ []) []

abbrev two_threads : System ℕ ℕ ℕ ℕ ℕ
two_threads = record { threads = first ∷ second ∷ []; replies = λ k. Reply.open_yet; fresh = 2 }

second-Lacks : Lacks 0 second
second-Lacks = record { queues = (tt, (tt, (tt, (tt, (tt, tt))))); messages = tt; waiting = tt }

others-Lacks :
    (j : ℕ) (th : Thread ℕ ℕ ℕ ℕ ℕ) → j ≢ 0 → get_elem? two_threads.threads j ≡ some th → Lacks 0 th
others-Lacks zero th n e = absurd (n refl)
others-Lacks (suc zero) th n e = rw (← some-injective second th e) second-Lacks
others-Lacks (suc (suc j)) th n e = cc

wait_never_ends_example :
    (s' : System ℕ ℕ ℕ ℕ ℕ) × (advance true false poll_future go_on send true true true two_threads
        0
      ≡ some s')
    × ((s'' : System ℕ ℕ ℕ ℕ ℕ)
        → Reach true false poll_future go_on send s' s''
        → (s''.replies 0 ≡ Reply.open_yet)
          × (th'' : Thread ℕ ℕ ℕ ℕ ℕ) × (get_elem? s''.threads 0 ≡ some th'')
          × (th''.waiting ≡ some (0, task 1 0)))
unfolding get_task find_pop
wait_never_ends_example =
    Deadlock.wait_never_ends true false poll_future go_on send true true true two_threads 0 0 first
      [] ([] ∷ (task 0 1 ∷ []) ∷ [] ∷ [] ∷ [] ∷ []) (task 1 0) 0 refl refl refl refl refl refl
      (omega arith) refl others-Lacks

-- The futures other than 0 never wait: the future `n` is ready with 7 at its poll number `n`.
abbrev poll_down : Bool → ℕ → Polled ℕ ℕ
poll_down env zero = waits 0 0
poll_down env (suc zero) = returns 1 (ready 7)
poll_down env (suc (suc n)) = returns (suc n) pending

abbrev IsDown : ℕ → Type 0
IsDown f = 0 < f

poll_down-CalmStep :
    (env : Bool) (f : ℕ) → IsDown f → CalmStep IsDown (λ n. n) (λ n. 7) f (poll_down env f)
poll_down-CalmStep env zero c = absurd (omega (arith, c))
poll_down-CalmStep env (suc zero) c = finishes refl
poll_down-CalmStep env (suc (suc n)) c = goes_on (omega arith) (omega arith) refl

abbrev worker : List (List (ImputioTask (ℕ × ℕ)))
worker = [] ∷ (task 0 2 ∷ []) ∷ [] ∷ [] ∷ [] ∷ []

abbrev waiter : Thread ℕ ℕ ℕ ℕ ℕ
waiter = record {
  executor = record { tasks = [] ∷ [] ∷ [] ∷ [] ∷ [] ∷ []; poll_handle = 0; parking = none };
  messages = [];
  waiting = some (0, task 1 3);
  ended = false;
}

abbrev waits_for_other : System ℕ ℕ ℕ ℕ ℕ
waits_for_other = record {
  threads = waiter ∷ thread_with worker [] ∷ [];
  replies = λ k. Reply.open_yet;
  fresh = 2;
}

wait_ends_example :
    (s' : System ℕ ℕ ℕ ℕ ℕ) × (poll_times true poll_down go_on send IsDown
        (λ n. n)
        (λ n. 7)
        poll_down-CalmStep
        1
        0
        7
        (true ∷ true ∷ true ∷ [])
        waits_for_other
      ≡ some s')
    × (s'.replies 0 ≡ Reply.sent 7)
    × ((env coin flag : Bool)
        → advance true false poll_down go_on send env coin flag s' 0
          ≡ check_flag flag 0 (settle s' 0 waiter (task 1 3) (returns 3 pending)))
unfolding total_work
wait_ends_example =
    Arrives.wait_ends true poll_down go_on send IsDown (λ n. n) (λ n. 7) poll_down-CalmStep 1 0 7
      (true ∷ true ∷ true ∷ []) waits_for_other
      (record { tasks = worker; poll_handle = 0; parking = none }) 0 waiter (task 1 3) refl
      (record { five = refl; levelled = (tt, ((refl, tt), (tt, (tt, (tt, tt))))) })
      (tt, (((omega arith, λ e. refl), tt), (tt, (tt, (tt, tt))))) (λ o. o.1.0.0 refl) (omega arith)
      (λ e. omega (arith, e)) refl refl refl
