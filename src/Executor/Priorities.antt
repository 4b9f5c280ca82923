-- ===== src/Executor/Priorities.antt =====
-- imputio/src/executor/handle.rs: which task a poll takes, and where it goes.
use toy_io.Common.{
  ℕ, zero, suc, ◌+◌, ◌≡◌, refl, ap, ◌∙◌, subst, Bool, true, false, Option, none, some, List, [],
  ◌∷◌, ◌++◌, arith,
}
use toy_io.Task.{Poll, ready, pending, ImputioTask, priority_index, poll_task}
use toy_io.Io.{IoOp}
use toy_io.Executor.{
  find_pop, find_pop_from_2, get_task, Executor, spawn, requeue, poll_next, poll_io, poll,
}
use toy_io.Executor.Queues.{
  empties, all_tasks, IsLevelled, IsValid, push_back_at-empties, poll_eq, poll-IsValid_at,
}

module _ {A : Type 0} where
  pub find_pop-empties :
      (k : ℕ) (t : A) (q : List A) (rest : List (List A))
      → find_pop (empties k ++ (t ∷ q) ∷ rest) ≡ (empties k ++ q ∷ rest, some t)
  unfolding find_pop
  find_pop-empties zero t q rest = refl
  find_pop-empties (suc k) t q rest = rw (find_pop-empties k t q rest) refl

  find_pop-none : (qs : List (List A)) → all_tasks qs ≡ [] → find_pop qs ≡ (qs, none)
  unfolding find_pop
  find_pop-none [] e = refl
  find_pop-none ([] ∷ qs) e = rw (find_pop-none qs e) refl
  find_pop-none ((t ∷ q) ∷ qs) e = cc

module _ {F : Type 0} where
  -- The rest of the queue after the polled task: a pending task goes to the back.
  abbrev pub requeued :
      ImputioTask F × Poll (Unit {0}) → List (ImputioTask F) → List (ImputioTask F)
  requeued (task, ready _) q = q
  requeued (task, pending) q = q ++ task ∷ []

  pub IsLevelled-at :
      (k i : ℕ) (t : ImputioTask F) (q : List (ImputioTask F)) (rest : List (List (ImputioTask F)))
      → IsLevelled i (empties k ++ (t ∷ q) ∷ rest)
      → priority_index t.priority ≡ i + k
  IsLevelled-at zero i t q rest h = omega arith
  IsLevelled-at (suc k) i t q rest h = omega (arith, IsLevelled-at k (suc i) t q rest h.1)

module _ {F N : Type 0} where
  pub spawn-empties :
      (ex : Executor F N) (k : ℕ) (t : ImputioTask F) (q : List (ImputioTask F))
      (rest : List (List (ImputioTask F)))
      → ex.tasks ≡ empties k ++ q ∷ rest
      → priority_index t.priority ≡ k
      → spawn ex t ≡ some (record ex { tasks = empties k ++ (q ++ t ∷ []) ∷ rest })
  unfolding spawn
  spawn-empties ex k t q rest e p = rw (e, p, push_back_at-empties k q rest t) refl

module _ {E F N : Type 0} (poll_future : E → F → F × Poll (Unit {0})) where
  pub requeue_at :
      (ex : Executor F N) (k : ℕ) (q : List (ImputioTask F)) (rest : List (List (ImputioTask F)))
      (r : ImputioTask F × Poll (Unit {0}))
      → ex.tasks ≡ empties k ++ q ∷ rest
      → priority_index r.0.priority ≡ k
      → requeue poll_future ex r ≡ some (record ex { tasks = empties k ++ requeued r q ∷ rest })
  unfolding requeue
  requeue_at ex k q rest (task, ready _) e p = ap (λ ts. some (record ex { tasks = ts })) e
  requeue_at ex k q rest (task, pending) e p = spawn-empties ex k task q rest e p

module _ {E F N Operation : Type 0} (io : Bool) (poll_future : E → F → F × Poll (Unit {0}))
    (send : N → IoOp Operation → Option N) where
  -- Without the feature fairness a poll takes the task at the front of the first queue that is not
  -- empty, which is that of the highest priority for which there is a task, and polls its future
  -- once. If that is ready the task is gone, and otherwise it goes to the back of the same queue.
  -- All other queues stay as they were.
  pub poll_highest :
      (env : E) (coin : Bool) (ex : Executor F N) (k : ℕ) (t : ImputioTask F)
      (q : List (ImputioTask F)) (rest : List (List (ImputioTask F)))
      → IsValid ex
      → ex.tasks ≡ empties k ++ (t ∷ q) ∷ rest
      → (ex' : Executor F N) × (poll io false poll_future send env coin ex ≡ some ex')
        × (ex'.tasks ≡ empties k ++ requeued (poll_task poll_future env t) q ∷ rest)
        × (priority_index t.priority ≡ k)
  unfolding get_task poll_next poll_task
  poll_highest env coin ex k t q rest v e =
      let level : priority_index t.priority ≡ k =
        omega (arith, IsLevelled-at k 0 t q rest (subst (IsLevelled 0) e v.levelled)) in
      let ex₁ = poll_io io false poll_future send ex in
      let r = poll_task poll_future env t in
      (
        record ex₁ { tasks = empties k ++ requeued r q ∷ rest },
        poll_eq io false poll_future send env coin ex
            ∙ ap (λ g. poll_next poll_future env (record ex₁ { tasks = g.0 }) g.1)
                (ap find_pop e ∙ find_pop-empties k t q rest)
            ∙ (requeue_at poll_future (record ex₁ { tasks = empties k ++ q ∷ rest }) k q rest r refl
                level),
        refl,
        level,
      )

  -- Without a task a poll changes no queue.
  pub poll_idle :
      (env : E) (coin : Bool) (ex : Executor F N)
      → all_tasks ex.tasks ≡ []
      → (ex' : Executor F N) × (poll io false poll_future send env coin ex ≡ some ex')
        × (ex'.tasks ≡ ex.tasks)
  unfolding get_task poll_next
  poll_idle env coin ex e = (
    record (poll_io io false poll_future send ex) { tasks = ex.tasks },
    rw (poll_eq io false poll_future send env coin ex, find_pop-none ex.tasks e) refl,
    refl,
  )

  -- With the feature fairness a coin that comes up true makes the poll pass over the two queues of
  -- the highest priorities: if only those hold tasks, no task is polled at all, and no queue
  -- changes.
  pub poll_fairness_skips :
      (env : E) (ex : Executor F N) (q₀ q₁ : List (ImputioTask F))
      (rest : List (List (ImputioTask F)))
      → ex.tasks ≡ q₀ ∷ q₁ ∷ rest
      → all_tasks rest ≡ []
      → (ex' : Executor F N) × (poll io true poll_future send env true ex ≡ some ex')
        × (ex'.tasks ≡ q₀ ∷ q₁ ∷ rest)
  unfolding get_task find_pop_from_2 poll_next
  poll_fairness_skips env ex q₀ q₁ rest e none_left = (
    record (poll_io io true poll_future send ex) { tasks = q₀ ∷ q₁ ∷ rest },
    rw (poll_eq io true poll_future send env true ex, e, find_pop-none rest none_left) refl,
    refl,
  )

  requeued-pending :
      (r : ImputioTask F × Poll (Unit {0})) (q : List (ImputioTask F))
      → r.1 ≡ pending
      → requeued r q ≡ q ++ r.0 ∷ []
  requeued-pending (t, ready _) q e = cc
  requeued-pending (t, pending) q e = refl

  -- A poll of a task that is still pending.
  pub poll_pending :
      (env : E) (coin : Bool) (ex : Executor F N) (k : ℕ) (t : ImputioTask F)
      (q : List (ImputioTask F)) (rest : List (List (ImputioTask F)))
      → IsValid ex
      → ex.tasks ≡ empties k ++ (t ∷ q) ∷ rest
      → (poll_task poll_future env t).1 ≡ pending
      → (ex' : Executor F N) × (poll io false poll_future send env coin ex ≡ some ex')
        × (ex'.tasks ≡ empties k ++ (q ++ (poll_task poll_future env t).0 ∷ []) ∷ rest)
        × IsValid ex'
  poll_pending env coin ex k t q rest v e p =
      let (ex₁, r, tasks, level) = poll_highest env coin ex k t q rest v e in
      (
        ex₁,
        r,
        tasks
            ∙ ap (λ l. empties k ++ l ∷ rest) (requeued-pending (poll_task poll_future env t) q p),
        poll-IsValid_at io false poll_future send env coin ex ex₁ v r,
      )
