-- ===== src/Runtime/UnitTests.antt =====
-- imputio/src/runtime.rs: the futures of its unit tests, and what `test_spawn_simple` and
-- `test_await_in_block_on_ctx` expect of them.
use mathlib.Core.List.{Perm}
use toy_io.Common.{
  ℕ, zero, suc, ◌+◌, ◌-◌, ◌%◌, ◌<◌, ◌≤◌, ◌≡◌, refl, Bool, false, Option, none, some, List, [], ◌∷◌,
  ◌++◌, arith, length, map, if◌then◌else◌, leb, Bool-cases, inl, inr, ◌==◌, ◌&&◌,
}
use toy_io.Task.{Poll, ready, pending, ImputioTask, Priority, high, medium, low, spawned, run}
use toy_io.Task.Run.{polled, outcome, run-ready}
use toy_io.Io.{IoOp}
use toy_io.Coordinator.{usize_mod}
use toy_io.Executor.Protocol.{Turn, Result}
use toy_io.Executor.{Executor}
use toy_io.Executor
use toy_io.Executor.Queues.{IsValid, all_tasks}
use toy_io.Executor.Progress.{total_work}
use toy_io.Executor.Rounds.{poll_each}
use toy_io.Executor.Values.{values, enqueued}
use toy_io.Executor.Deliveries.{all_sent, all_new, work_left, spawned-values}

pub record ExampleTask : Type 0 where
  pub count : ℕ

-- `count += 1` wraps at the width of `usize`, as in a release build.
unfoldable pub poll : {E : Type 0} → E → ExampleTask → ExampleTask × Poll ℕ
poll env t =
    let c = (t.count + 1) % usize_mod in
    if leb 5 c then (record { count = c }, ready c) else (record { count = c }, pending)

pub record OtherExampleTask : Type 0 where
  pub count : ℕ

-- The future of `OtherExampleTask::into_future`, which is ready at its first poll.
unfoldable pub into_future : OtherExampleTask → OtherExampleTask × Poll ℕ
into_future t = let c = (t.count + 1) % usize_mod in (record { count = c }, ready c)

-- The futures that `test_spawn_simple` spawns. `async_fn` has not been polled; later it is the
-- `ExampleTask` that it awaits.
pub data TestFuture : Type 0 where
  one : ExampleTask → TestFuture
  two : OtherExampleTask → TestFuture
  async_fn : TestFuture

abbrev as_one : ExampleTask × Poll ℕ → TestFuture × Poll ℕ
as_one (t, p) = (one t, p)

abbrev as_two : OtherExampleTask × Poll ℕ → TestFuture × Poll ℕ
as_two (t, p) = (two t, p)

unfoldable pub poll_test : {E : Type 0} → E → TestFuture → TestFuture × Poll ℕ
unfolding poll into_future
poll_test env (one t) = as_one (poll env t)
poll_test env (two t) = as_two (into_future t)
poll_test env async_fn = as_one (poll env (record { count = 1 }))

-- What a future comes to, and a bound on its pending polls.
abbrev reached : ℕ → ℕ
reached c = if leb 5 c then c else 5

abbrev pub gives : TestFuture → ℕ
gives (one t) = reached ((t.count + 1) % usize_mod)
gives (two t) = (t.count + 1) % usize_mod
gives async_fn = 5

abbrev pub work : TestFuture → ℕ
work (one t) = 5 - (t.count + 1) % usize_mod
work (two t) = 0
work async_fn = 4

module _ {E : Type 0} (env : E) where
  abbrev stepped : ℕ → ExampleTask × Poll ℕ
  stepped c = if leb 5 c then (record { count = c }, ready c) else (record { count = c }, pending)

  stepped-falls : (c : ℕ) → (stepped c).1 ≡ pending → work (one (stepped c).0) < 5 - c
  stepped-falls c h = elim (Bool-cases (leb 5 c)) [
    | inl e ↦ let wrong : ready c ≡ pending = rw e at h in cc
    | inr e ↦ let low : c < 5 = ground (arith, e) in rw e (omega (arith, low))
  ]

  reached_at : (c : ℕ) → c < 5 → reached (c + 1) ≡ 5
  reached_at c h = ground arith

  stepped-keeps : (c : ℕ) → (stepped c).1 ≡ pending → gives (one (stepped c).0) ≡ reached c
  stepped-keeps c h = elim (Bool-cases (leb 5 c)) [
    | inl e ↦ let wrong : ready c ≡ pending = rw e at h in cc
    | inr e ↦
        let low : c < 5 = ground (arith, e) in
        let next : (c + 1) % usize_mod ≡ c + 1 = omega (arith, low) in
        rw (e, next) (reached_at c low)
  ]

  stepped-right : (c val : ℕ) → (stepped c).1 ≡ ready val → val ≡ reached c
  stepped-right c val h = elim (Bool-cases (leb 5 c)) [
    | inl e ↦ let same : ready c ≡ ready val = rw e at h in rw e cc
    | inr e ↦ let wrong : pending ≡ ready val = rw e at h in cc
  ]

  pub poll_test-falls :
      (f : TestFuture) → (poll_test env f).1 ≡ pending → work (poll_test env f).0 < work f
  unfolding poll_test
  poll_test-falls (one t) h = stepped-falls ((t.count + 1) % usize_mod) h
  poll_test-falls (two t) h = cc
  poll_test-falls async_fn h = omega arith

  pub poll_test-keeps :
      (f : TestFuture) → (poll_test env f).1 ≡ pending → gives (poll_test env f).0 ≡ gives f
  unfolding poll_test
  poll_test-keeps (one t) h = stepped-keeps ((t.count + 1) % usize_mod) h
  poll_test-keeps (two t) h = cc
  poll_test-keeps async_fn h = refl

  pub poll_test-right : (f : TestFuture) (val : ℕ) → (poll_test env f).1 ≡ ready val → val ≡ gives f
  unfolding poll_test
  poll_test-right (one t) val h = stepped-right ((t.count + 1) % usize_mod) val h
  poll_test-right (two t) val h = cc
  poll_test-right async_fn val h = cc

-- The tasks that `test_spawn_simple` spawns.
abbrev pub test_spawn_simple : List (ImputioTask TestFuture)
test_spawn_simple =
    record { future = one (record { count = 2 }); priority = high }
    ∷ record { future = two (record { count = 2 }); priority = medium }
    ∷ record { future = async_fn; priority = low }
    ∷ []

module _ {E N Operation R : Type 0} (io : Bool) (send : N → IoOp Operation → Option N) where
  -- `test_spawn_simple` on one executor, without the feature fairness: if its three tasks are all
  -- that an executor gets, whatever else its turns are, and no turn finds the flag set, then enough
  -- further polls, at most as many as the work that is left, send exactly the values that the test
  -- asserts, 5, 3 and 5, to the handles of the tasks.
  pub test_spawn_simple_lem :
      (turns : List (Turn E (TestFuture × Option ℕ) Operation R)) (envs : List E)
      (ex ex' : Executor (TestFuture × Option ℕ) N) (out : List (R × Result (Unit {0})))
      → IsValid ex
      → all_tasks ex.tasks ≡ []
      → all_new turns ≡ map (enqueued (poll_test {E = E})) test_spawn_simple
      → Executor.run io false (spawned poll_test) send ex turns ≡ some (ex', out)
      → total_work (work_left (poll_test {E = E}) work poll_test-falls) ex'.tasks ≤ length envs
      → (last : Executor (TestFuture × Option ℕ) N) × (poll_each io
            (spawned poll_test)
            send
            envs
            ex'
          ≡ some last)
        × (all_tasks last.tasks ≡ [])
        × Perm
            (all_sent io poll_test send ex turns ++ values io poll_test send envs ex')
            (some 5 ∷ some 3 ∷ some 5 ∷ [])
  unfolding enqueued
  test_spawn_simple_lem turns envs ex ex' out v idle new e enough =
      let (last, polls, none_left, p) =
        spawned-values poll_test gives work poll_test-falls poll_test-keeps poll_test-right io send
          turns envs ex ex' out v e enough in
      (last, polls, none_left, rw (new, idle) at p)

-- The states of the future of `test_await_in_block_on_ctx`: it has not been polled, or it awaits
-- `async_fn`, with the value of the other task.
pub data AwaitTest : Type 0 where
  begins : AwaitTest
  awaits : ℕ → ExampleTask → AwaitTest

-- The two assertions at the end; `none` is the panic of one that fails.
abbrev asserts : ℕ → ℕ → Option (Unit {0})
asserts t_ex async_fn_res = if async_fn_res == 5 && t_ex == 3 then some tt else none

abbrev await_fn : ℕ → ExampleTask × Poll ℕ → AwaitTest × Poll (Option (Unit {0}))
await_fn t_ex (t, ready res) = (awaits t_ex t, ready (asserts t_ex res))
await_fn t_ex (t, pending) = (awaits t_ex t, pending)

abbrev await_other :
    {E : Type 0} → E → OtherExampleTask × Poll ℕ → AwaitTest × Poll (Option (Unit {0}))
await_other env (t, ready t_ex) = await_fn t_ex (poll env (record { count = 1 }))
await_other env (t, pending) = (begins, pending)

unfoldable pub test_await : {E : Type 0} → E → AwaitTest → AwaitTest × Poll (Option (Unit {0}))
unfolding poll into_future
test_await env begins = await_other env (into_future (record { count = 2 }))
test_await env (awaits t_ex t) = await_fn t_ex (poll env t)

module _ {E : Type 0} (env : ℕ → E) where
  awaited :
      (n : ℕ)
      → n < 3
      → (polled test_await env (suc n) begins ≡ awaits 3 (record { count = n + 2 }))
        × (outcome test_await env begins n ≡ pending)
  unfolding test_await polled poll into_future
  awaited zero h = (refl, refl)
  awaited (suc zero) h = (refl, refl)
  awaited (suc (suc zero)) h = (refl, refl)
  awaited (suc (suc (suc n))) h = absurd (omega arith)

  -- `test_await_in_block_on_ctx` passes: its future is ready at its fourth poll, and neither
  -- assertion panics.
  pub test_await_lem :
      (priority : Priority) (fuel : ℕ)
      → 3 < fuel
      → run test_await fuel env (record { future = begins; priority = priority })
        ≡ some (some tt, 4)
  unfolding test_await polled poll into_future
  test_await_lem priority fuel h =
      run-ready test_await env (record { future = begins; priority = priority }) (some tt) fuel 3 h
        (λ i lt. (awaited i lt).1) refl
