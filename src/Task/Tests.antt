-- ===== src/Task/Tests.antt =====
-- imputio/src/task/mod.rs: a future that is ready at its third poll.
use toy_io.Common.{ℕ, zero, suc, ◌+◌, ◌<◌, ◌≡◌, refl, some, arith}
use toy_io.Task.Run
use toy_io.Task.{Poll, ready, pending, ImputioTask, high, run}

-- It adds what the environment gives at each poll.
abbrev adding : ℕ → ℕ × ℕ → (ℕ × ℕ) × Poll ℕ
adding env (zero, sum) = ((0, sum), ready (sum + env))
adding env (suc n, sum) = ((n, sum + env), pending)

abbrev adding_task : ImputioTask (ℕ × ℕ)
adding_task = record { future = (2, 0); priority = high }

abbrev clock : ℕ → ℕ
clock n = n + 10

early : (i : ℕ) → i < 2 → Run.outcome adding clock (2, 0) i ≡ pending
unfolding Run.polled
early zero h = refl
early (suc zero) h = refl
early (suc (suc i)) h = absurd (omega arith)

run-ready_example : run adding 7 clock adding_task ≡ some (33, 3)
unfolding Run.polled
run-ready_example = Run.run-ready adding clock adding_task 33 7 2 (omega arith) early refl
