-- ===== src/Task/Run.antt =====
-- imputio/src/task/mod.rs: how long `run` polls, and what it gives.
use toy_io.Common.{ℕ, zero, suc, ◌+◌, ◌≤◌, ◌<◌, ◌≡◌, refl, ◌∙◌, ap, none, some, arith}
use native.Mathlib.Decide.{ℕ_discrete}
use toy_io.Task.{Poll, ready, pending, ImputioTask, run_from, run, spawned}

module _ {E F T : Type 0} (poll_future : E → F → F × Poll T) where
  -- The future after `n` polls.
  unfoldable pub polled : (ℕ → E) → ℕ → F → F
  polled env zero f = f
  polled env (suc n) f = (poll_future (env n) (polled env n f)).0

  -- What the poll of number `n` gives.
  abbrev pub outcome : (ℕ → E) → F → ℕ → Poll T
  outcome env f n = (poll_future (env n) (polled env n f)).1

  run_from-ready :
      (fuel n k : ℕ) (env : ℕ → E) (f : F) (val : T)
      → n ≤ k
      → k < n + fuel
      → ((i : ℕ) → i < k → outcome env f i ≡ pending)
      → outcome env f k ≡ ready val
      → run_from poll_future fuel env n (polled env n f) ≡ some (val, suc k)
  unfolding run_from polled
  run_from-ready zero n k env f val lo hi before now = absurd (omega arith)
  run_from-ready (suc fuel) n k env f val lo hi before now = elim (ℕ_discrete n k) [
    | yes e ↦
        let here : outcome env f n ≡ ready val = rw (← e) at now in
        rw here (ap (λ m. some (val, suc m)) e)
    | no ne ↦
        rw (before n (omega arith))
          (run_from-ready fuel (suc n) k env f val (omega arith) (omega arith) before now)
  ]

  -- `ImputioTask::run` returns the value of the first poll that is ready, after exactly the polls
  -- up to that one; any fuel above its number is enough.
  pub run-ready :
      (env : ℕ → E) (task : ImputioTask F) (val : T) (fuel k : ℕ)
      → k < fuel
      → ((i : ℕ) → i < k → outcome env task.future i ≡ pending)
      → outcome env task.future k ≡ ready val
      → run poll_future fuel env task ≡ some (val, suc k)
  unfolding run polled
  run-ready env task val fuel k h before now =
      run_from-ready fuel 0 k env task.future val (omega arith) (omega arith) before now

module _ {E F T : Type 0} (poll_future : E → F → F × Poll T) (env : ℕ → E) where
  -- While the user's future is pending, the future that is spawned for it has sent nothing.
  spawned-pending :
      (n : ℕ) (f : F)
      → ((i : ℕ) → i < n → outcome poll_future env f i ≡ pending)
      → polled (spawned poll_future) env n (f, none) ≡ (polled poll_future env n f, none)
  unfolding polled spawned
  spawned-pending zero f before = refl
  spawned-pending (suc n) f before =
      ap (λ s. (spawned poll_future (env n) s).0)
        (spawned-pending n f (λ i h. before i (omega arith)))
      ∙ rw (spawned, before n (omega arith)) refl

  -- Spawning and running a future agree. If the user's future is first ready at its poll of number
  -- `k`, with some value, then so is the future that `spawn` enqueues for it; that poll, and none
  -- before it, puts the same value into the channel of the task's handle.
  pub spawned_lem :
      (k : ℕ) (f : F) (val : T)
      → ((i : ℕ) → i < k → outcome poll_future env f i ≡ pending)
      → outcome poll_future env f k ≡ ready val
      → (outcome (spawned poll_future) env (f, none) k ≡ ready tt)
        × ((polled (spawned poll_future) env k (f, none)).1 ≡ none)
        × ((polled (spawned poll_future) env (suc k) (f, none)).1 ≡ some val)
  unfolding polled spawned
  spawned_lem k f val before now =
      let same = spawned-pending k f before in
      (
        ap (λ s. (spawned poll_future (env k) s).1) same ∙ rw (spawned, now) refl,
        ap (λ s. s.1) same,
        ap (λ s. (spawned poll_future (env k) s).0.1) same ∙ rw (spawned, now) refl,
      )
