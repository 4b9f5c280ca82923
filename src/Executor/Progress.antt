-- ===== src/Executor/Progress.antt =====
-- imputio/src/executor/handle.rs: the executor finishes its tasks, without the feature fairness.
-- `work` is a bound on how many more polls a future needs, which each poll that is pending lowers.
use toy_io.Common.{
  ℕ, zero, suc, ◌+◌, ◌<◌, ◌≤◌, ◌≡◌, refl, Bool, false, Option, some, List, [], ◌∷◌, ◌++◌, arith,
  length, ◌⊎◌, inl, inr,
}
use toy_io.Task.{Poll, pending, ImputioTask, poll_task}
use toy_io.Io.{IoOp}
use toy_io.Executor.{Executor, poll}
use toy_io.Executor.Queues.{empties, all_tasks, IsValid, find_pop-Pops, poll-IsValid_at}
use toy_io.Executor.Priorities.{requeued, poll_highest, poll_idle}
use toy_io.Executor.Rounds.{poll_each}

module _ {F : Type 0} (work : F → ℕ) where
  -- Each task needs one poll more than its work, the last one.
  unfoldable pub work_of : List (ImputioTask F) → ℕ
  work_of [] = 0
  work_of (t ∷ q) = suc (work t.future) + work_of q

  unfoldable pub total_work : List (List (ImputioTask F)) → ℕ
  unfolding work_of
  total_work [] = 0
  total_work (q ∷ qs) = work_of q + total_work qs

  pub work_of-append : (q r : List (ImputioTask F)) → work_of (q ++ r) ≡ work_of q + work_of r
  unfolding work_of
  work_of-append [] r = omega arith
  work_of-append (t ∷ q) r = omega (arith, work_of-append q r)

  pub total_work-empties :
      (k : ℕ) (q : List (ImputioTask F)) (rest : List (List (ImputioTask F)))
      → total_work (empties k ++ q ∷ rest) ≡ work_of q + total_work rest
  unfolding total_work
  total_work-empties zero q rest = refl
  total_work-empties (suc k) q rest = omega (arith, total_work-empties k q rest)

  pub total_work-zero : (qs : List (List (ImputioTask F))) → total_work qs ≡ 0 → all_tasks qs ≡ []
  unfolding total_work
  total_work-zero [] e = refl
  total_work-zero ([] ∷ qs) e = total_work-zero qs (omega arith)
  total_work-zero ((t ∷ q) ∷ qs) e = absurd (omega arith)

  pub total_work-none : (qs : List (List (ImputioTask F))) → all_tasks qs ≡ [] → total_work qs ≡ 0
  unfolding total_work work_of
  total_work-none [] e = refl
  total_work-none ([] ∷ qs) e = omega (arith, total_work-none qs e)
  total_work-none ((t ∷ q) ∷ qs) e = cc

module _ {E F N Operation : Type 0} (io : Bool) (poll_future : E → F → F × Poll (Unit {0}))
    (send : N → IoOp Operation → Option N) (work : F → ℕ)
    (falls : (env : E) (f : F)
      → (poll_future env f).1 ≡ pending
      → work (poll_future env f).0 < work f) where
  requeued-work :
      (env : E) (t : ImputioTask F) (q : List (ImputioTask F))
      → work_of work (requeued (poll_task poll_future env t) q) < work_of work (t ∷ q)
  unfolding poll_task work_of
  requeued-work env t q = ground (
    arith,
    falls env t.future,
    work_of-append work q (record t { future = (poll_future env t.future).0 } ∷ []),
  )

  Falls : Executor F N → Executor F N → Type 0
  Falls ex ex' =
      (all_tasks ex.tasks ≡ []) × (ex'.tasks ≡ ex.tasks)
      ⊎ (total_work work ex'.tasks < total_work work ex.tasks)

  -- A poll lowers the work that is left, or there is no task.
  poll-Falls :
      (env : E) (ex : Executor F N)
      → IsValid ex
      → (ex' : Executor F N) × (poll io false poll_future send env false ex ≡ some ex')
        × IsValid ex'
        × Falls ex ex'
  unfolding Falls
  poll-Falls env ex v = elim (find_pop-Pops ex.tasks) [
    | inl (_, e) ↦
        let (ex₁, r, same) = poll_idle io poll_future send env false ex e in
        (ex₁, r, poll-IsValid_at io false poll_future send env false ex ex₁ v r, inl (e, same))
    | inr (k, t, q, rest, e, _) ↦
        let (ex₁, r, tasks, _) = poll_highest io poll_future send env false ex k t q rest v e in
        let next = requeued (poll_task poll_future env t) q in
        (
          ex₁,
          r,
          poll-IsValid_at io false poll_future send env false ex ex₁ v r,
          inr (
              rw (tasks, e)
                (omega (
                  arith,
                  total_work-empties work k next rest,
                  total_work-empties work k (t ∷ q) rest,
                  requeued-work env t q,
                ))),
        )
  ]

  -- Without the feature fairness every task is finished: if each pending poll of a future lowers
  -- its work, then as many polls as the work of all tasks and one more for each task empty all
  -- queues, whatever the priorities and the environments. More polls do no harm.
  pub poll_each_finishes :
      (envs : List E) (ex : Executor F N)
      → IsValid ex
      → total_work work ex.tasks ≤ length envs
      → (ex' : Executor F N) × (poll_each io poll_future send envs ex ≡ some ex')
        × (all_tasks ex'.tasks ≡ [])
  unfolding poll_each Falls
  poll_each_finishes [] ex v h = (ex, refl, total_work-zero work ex.tasks (omega arith))
  poll_each_finishes (env ∷ envs) ex v h =
      let (ex₁, r, v₁, f) = poll-Falls env ex v in
      let (last, s, d) = poll_each_finishes envs ex₁ v₁ (bound ex₁ f) in
      (last, rw (poll_each, r) s, d)
    where
      bound : (ex₁ : Executor F N) → Falls ex ex₁ → total_work work ex₁.tasks ≤ length envs
      bound ex₁ (inl (e, same)) = rw same (omega (arith, total_work-none work ex.tasks e))
      bound ex₁ (inr f) = omega arith
