-- ===== src/Task.antt =====
-- imputio/src/task/mod.rs: tasks, and imputio/src/lib.rs: their priorities. A future is code of the
-- user: `F` is its state, and `poll_future e f` is what one poll gives in the environment `e`,
-- which stands for all that the poll may depend on (the clock, sockets, other threads, the waker).
pub mod Run
pub mod Waker
pub mod Handle
mod Tests
use toy_io.Common.{ℕ, zero, suc, ◌≡◌, Option, none, some, List, [], ◌∷◌, if◌then◌else◌}

-- `std::task::Poll`
pub data Poll (T : Type 0) : Type 0 where
  ready : T → Poll T
  pending : Poll T

pub data Priority : Type 0 where
  best_effort low medium high : Priority

-- `priority as usize`
abbrev pub priority_index : Priority → ℕ
priority_index best_effort = 4
priority_index low = 3
priority_index medium = 2
priority_index high = 1

-- `#[default]`, and the priority of `spawn!` without one.
abbrev pub default_priority : Priority
default_priority = low

pub record ImputioTask (F : Type 0) : Type 0 where
  pub future : F
  pub priority : Priority

module _ {E F T : Type 0} (poll_future : E → F → F × Poll T) where
  -- `Future::poll` of an `InnerTask`, which passes on what its future gives.
  unfoldable pub poll_inner : E → F → F × Poll T
  poll_inner e f =
      let (f', p) = poll_future e f in
      (f', elim p [ ready output ↦ ready output | pending ↦ pending ])

  unfoldable pub poll_task : E → ImputioTask F → ImputioTask F × Poll T
  unfolding poll_inner
  poll_task e task = let (f', p) = poll_inner e task.future in (record task { future = f' }, p)

  -- `InnerTask::run`, the loop that polls until the future is ready, in the environments `env 0`,
  -- `env 1`, and so on: the value and the number of polls. `none`: the fuel is used up.
  pub run_from : ℕ → (ℕ → E) → ℕ → F → Option (T × ℕ)
  unfolding poll_inner
  run_from zero env n f = none
  run_from (suc fuel) env n f =
      let (f', p) = poll_inner (env n) f in
      let rest = run_from fuel env (suc n) f' in
      elim p [ ready val ↦ some (val, suc n) | pending ↦ rest ]

  -- `ImputioTask::run`, and `spawn_blocking` of the executor's handles, which makes a task of the
  -- future and runs it.
  pub run : ℕ → (ℕ → E) → ImputioTask F → Option (T × ℕ)
  run fuel env task = run_from fuel env 0 task.future

  -- The future that `ExecHandle::spawn` enqueues: it polls the user's future, and sends what that
  -- gives into the reply channel, whose content is the second part of the state.
  unfoldable pub spawned : E → F × Option T → (F × Option T) × Poll (Unit {0})
  spawned e (f, sent) =
      let (f', p) = poll_future e f in
      elim p [ ready res ↦ ((f', some res), ready tt) | pending ↦ ((f', sent), pending) ]
