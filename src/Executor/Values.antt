-- ===== src/Executor/Values.antt =====
-- imputio/src/executor/handle.rs: what the futures of `ExecHandle::spawn` send to the handles of
-- their tasks, over the polls of an executor without the feature fairness.
use mathlib.Core.List.{Perm, perm_append_singleton}
use mathlib.Core.List.Perm
use mathlib.Core.Option.{some-injective}
use toy_io.Common.{
  ℕ, zero, suc, ◌≡◌, refl, Bool, false, Option, none, some, List, [], ◌∷◌, ◌++◌, map, map-append,
  append_assoc, inl, inr,
}
use toy_io.Task.{Poll, ready, pending, ImputioTask, poll_task, poll_inner, spawned}
use toy_io.Io.{IoOp}
use toy_io.Executor.{Executor, find_pop, poll}
use toy_io.Executor.Queues.{empties, all_tasks, IsValid, find_pop-Pops, poll-IsValid_at}
use toy_io.Executor.Priorities.{requeued, poll_highest, poll_idle}
use toy_io.Executor.Rounds.{poll_each}

module _ {E F T : Type 0} (poll_future : E → F → F × Poll T) where
  -- The task that `ExecHandle::spawn` makes, with an empty channel for the result.
  unfoldable pub enqueued : ImputioTask F → ImputioTask (F × Option T)
  enqueued task = record { future = (task.future, none); priority = task.priority }

  abbrev in_channel : ImputioTask (F × Option T) × Poll (Unit {0}) → List (Option T)
  in_channel (task, ready _) = task.future.1 ∷ []
  in_channel (task, pending) = []

  -- What the channel of a task holds that its poll finishes.
  unfoldable pub finished : E → Option (ImputioTask (F × Option T)) → List (Option T)
  finished env none = []
  finished env (some task) = in_channel (poll_task (spawned poll_future) env task)

module _ {E F T N Operation : Type 0} (io : Bool) (poll_future : E → F → F × Poll T)
    (send : N → IoOp Operation → Option N) where
  -- What is in the channels of the tasks that the polls finish, in the order in which they do.
  unfoldable pub values : List E → Executor (F × Option T) N → List (Option T)
  values [] ex = []
  values (env ∷ envs) ex =
      finished poll_future env (find_pop ex.tasks).1
      ++ (elim (poll io false (spawned poll_future) send env false ex) [
        | none ↦ []
        | some ex' ↦ values envs ex'
      ])

all_tasks-empties :
    {A : Type 0} (k : ℕ) (q : List A) (rest : List (List A))
    → all_tasks (empties k ++ q ∷ rest) ≡ q ++ all_tasks rest
all_tasks-empties zero q rest = refl
all_tasks-empties (suc k) q rest = all_tasks-empties k q rest

-- `gives f` is the value that the future comes to, whatever happens on the way.
module _ {F T : Type 0} (gives : F → T) where
  abbrev pub promised : ImputioTask (F × Option T) → Option T
  promised t = some (gives t.future.0)

module _ {E F T : Type 0} (poll_future : E → F → F × Poll T) (gives : F → T)
    (keeps : (env : E) (f : F)
      → (poll_future env f).1 ≡ pending
      → gives (poll_future env f).0 ≡ gives f)
    (right : (env : E) (f : F) (val : T) → (poll_future env f).1 ≡ ready val → val ≡ gives f) where
  -- One poll either sends the value that the task promises, or leaves it the same promise.
  finished-promised :
      (env : E) (t : ImputioTask (F × Option T)) (q : List (ImputioTask (F × Option T)))
      → Perm
          (finished poll_future env (some t)
            ++ map (promised gives) (requeued (poll_task (spawned poll_future) env t) q))
          (map (promised gives) (t ∷ q))
  unfolding finished poll_task poll_inner spawned
  finished-promised env t q = by_outcome (poll_future env t.future.0).1 refl
    where
      by_outcome :
          (p : Poll T)
          → (poll_future env t.future.0).1 ≡ p
          → Perm
              (finished poll_future env (some t)
                ++ map (promised gives) (requeued (poll_task (spawned poll_future) env t) q))
              (map (promised gives) (t ∷ q))
      by_outcome (ready val) e =
          rw (e, finished, poll_task, poll_inner, spawned, right env t.future.0 val e) (Perm.refl _)
      by_outcome pending e =
          rw
            (
              e,
              finished,
              poll_task,
              poll_inner,
              spawned,
              map-append (promised gives),
              keeps env t.future.0 e,
            )
            (perm_append_singleton _ _)

  module _ {N Operation : Type 0} (io : Bool) (send : N → IoOp Operation → Option N) where
    -- The same for a poll of the executor, which is about the task that is next.
    pub poll-promised :
        (env : E) (coin : Bool) (ex : Executor (F × Option T) N)
        → IsValid ex
        → (ex' : Executor (F × Option T) N) × (poll io false (spawned poll_future) send env coin ex
            ≡ some ex')
          × IsValid ex'
          × Perm
              (finished poll_future env (find_pop ex.tasks).1
                ++ map (promised gives) (all_tasks ex'.tasks))
              (map (promised gives) (all_tasks ex.tasks))
    unfolding finished
    poll-promised env coin ex v = elim (find_pop-Pops ex.tasks) [
      | inl (r, e) ↦
          let (ex₁, p, same) = poll_idle io (spawned poll_future) send env coin ex e in
          (
            ex₁,
            p,
            poll-IsValid_at io false (spawned poll_future) send env coin ex ex₁ v p,
            rw (r, same, finished) (Perm.refl _),
          )
      | inr (k, t, q, rest, e, r) ↦
          let (ex₁, p, tasks, _) =
            poll_highest io (spawned poll_future) send env coin ex k t q rest v e in
          (
            ex₁,
            p,
            poll-IsValid_at io false (spawned poll_future) send env coin ex ex₁ v p,
            rw
                (
                  r,
                  tasks,
                  e,
                  all_tasks-empties k (requeued (poll_task (spawned poll_future) env t) q) rest,
                  all_tasks-empties k (t ∷ q) rest,
                  map-append (promised gives) (requeued (poll_task (spawned poll_future) env t) q)
                      (all_tasks rest),
                  map-append (promised gives) (t ∷ q) (all_tasks rest),
                  ← append_assoc,
                )
                (Perm.append_right (map (promised gives) (all_tasks rest))
                  (finished-promised env t q)),
          )
    ]

    -- Over any polls without a panic, the values that were sent and the promises of the tasks that
    -- are left are those of all tasks at the start.
    pub values-promised :
        (envs : List E) (ex ex' : Executor (F × Option T) N)
        → IsValid ex
        → poll_each io (spawned poll_future) send envs ex ≡ some ex'
        → Perm
            (values io poll_future send envs ex ++ map (promised gives) (all_tasks ex'.tasks))
            (map (promised gives) (all_tasks ex.tasks))
    unfolding values poll_each
    values-promised [] ex ex' v e = rw (some-injective ex ex' e) (Perm.refl _)
    values-promised (env ∷ envs) ex ex' v e =
        let (ex₁, p, v₁, step) = poll-promised env false ex v in
        let rest = values-promised envs ex₁ ex' v₁ (rw (p, poll_each) at e) in
        rw (values, p, append_assoc)
          (Perm.trans (Perm.append_left (finished poll_future env (find_pop ex.tasks).1) rest) step)
