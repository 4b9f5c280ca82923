-- ===== src/Executor/Deliveries.antt =====
-- imputio/src/executor/handle.rs: what the handles of spawned tasks receive over a whole run of the
-- executor, without the feature fairness.
mod Tests
use mathlib.Core.Option.{some-injective}
use mathlib.Core.List.{Perm, perm_append_singleton, perm_append_comm, perm_middle}
use mathlib.Core.List.Perm
use toy_io.Common.{
  ℕ, zero, suc, ◌<◌, ◌≤◌, ◌≡◌, refl, ap, sym, subst, ◌∙◌, Bool, true, false, Option, none, some,
  OnSome, List, [], ◌∷◌, ◌++◌, map, map-append, append_assoc, append-nil, length, if◌then◌else◌,
  Bool-cases, inl, inr,
}
use toy_io.Task.{Poll, ready, pending, ImputioTask, priority_index, poll_task, spawned}
use toy_io.Io.{IoOp}
use toy_io.Executor.Protocol.{Transaction, Turn, Result}
use toy_io.Executor.{
  Executor, find_pop, push_back_at, spawn, with_tasks, push_to_poller, poll, handle, run,
}
use toy_io.Executor.Queues.{all_tasks, IsValid, spawn-IsValid}
use toy_io.Executor.Rounds.{poll_each}
use toy_io.Executor.Progress.{total_work, poll_each_finishes}
use toy_io.Executor.Values.{promised, finished, values, poll-promised, values-promised}
use toy_io.Executor.Perms.{push_back_at-perm, spawn-perm, append_left_comm, both_account}

module _ {F Operation R : Type 0} where
  -- The tasks that a message spawns.
  abbrev new_in : Option (Transaction F Operation R) → List (ImputioTask F)
  new_in (some (Transaction.spawn task)) = task ∷ []
  new_in _ = []

module _ {E F Operation R : Type 0} where
  -- The tasks that are spawned in the turns of the loop, up to the one that finds the flag set.
  abbrev pub all_new : List (Turn E F Operation R) → List (ImputioTask F)
  all_new [] = []
  all_new (turn ∷ turns) = new_in turn.event ++ (if turn.shutdown then [] else all_new turns)

module _ {E F T N Operation R : Type 0} (io : Bool) (poll_future : E → F → F × Poll T)
    (send : N → IoOp Operation → Option N) where
  -- What a turn finishes.
  unfoldable pub sent_in :
      E
      → Executor (F × Option T) N
      → Option (Transaction (F × Option T) Operation R)
      → List (Option T)
  unfolding finished
  sent_in env ex none = []
  sent_in env ex (some Transaction.poll) = finished poll_future env (find_pop ex.tasks).1
  sent_in env ex (some (Transaction.spawn _)) = []
  sent_in env ex (some (Transaction.submit_io_op _ _)) = []

  -- What is in the channels of the tasks that the turns of the loop finish, in their order.
  unfoldable pub all_sent :
      Executor (F × Option T) N → List (Turn E (F × Option T) Operation R) → List (Option T)
  unfolding sent_in
  all_sent ex [] = []
  all_sent ex (turn ∷ turns) =
      sent_in turn.env ex turn.event
      ++ (elim (handle io false (spawned poll_future) send turn ex turn.event) [
        | none ↦ []
        | some (ex', _) ↦ if turn.shutdown then [] else all_sent ex' turns
      ])

-- `gives f` is the value that the future comes to, whatever happens on the way.
abbrev pub owed : {F T : Type 0} → (F → T) → List (ImputioTask (F × Option T)) → List (Option T)
owed gives ts = map (promised gives) ts

module _ {E F T : Type 0} (poll_future : E → F → F × Poll T) (gives : F → T)
    (keeps : (env : E) (f : F)
      → (poll_future env f).1 ≡ pending
      → gives (poll_future env f).0 ≡ gives f)
    (right : (env : E) (f : F) (val : T) → (poll_future env f).1 ≡ ready val → val ≡ gives f)
    {N Operation R : Type 0} (io : Bool) (send : N → IoOp Operation → Option N) where
  handle-promised :
      (turn : Turn E (F × Option T) Operation R) (ex : Executor (F × Option T) N)
      (o : Option (Transaction (F × Option T) Operation R))
      → IsValid ex
      → (ex' : Executor (F × Option T) N) × (out : List (R × Result (Unit {0}))) × (handle io false
            (spawned poll_future)
            send
            turn
            ex
            o
          ≡ some (ex', out))
        × IsValid ex'
        × Perm
            (sent_in io poll_future send turn.env ex o ++ owed gives (all_tasks ex'.tasks))
            (owed gives (new_in o) ++ owed gives (all_tasks ex.tasks))
  unfolding handle sent_in push_to_poller
  handle-promised turn ex none v = (ex, [], refl, v, Perm.refl _)
  handle-promised turn ex (some Transaction.poll) v =
      let (ex', e, v', p) =
        poll-promised poll_future gives keeps right io send turn.env turn.coin ex v in
      (ex', [], rw (handle, e) refl, v', p)
  handle-promised turn ex (some (Transaction.spawn task)) v =
      let (ex', e, v') = spawn-IsValid ex task v in
      let pushed : OnSome (λ ex₁. Perm (all_tasks ex₁.tasks) (task ∷ all_tasks ex.tasks))
          (spawn ex task) =
        spawn-perm ex task in
      let added : Perm (all_tasks ex'.tasks) (task ∷ all_tasks ex.tasks) = rw e at pushed in
      (ex', [], rw (handle, e) refl, v', Perm.map (promised gives) added)
  handle-promised turn ex (some (Transaction.submit_io_op op reply)) v =
      (_, _, refl, record { five = v.five; levelled = v.levelled }, Perm.refl _)

  -- Every value is delivered exactly once. Let each future come to one value: a pending poll keeps
  -- it, and a poll that is ready gives it. Without the feature fairness, whatever the turns of the
  -- loop meet, up to one that finds the flag set, the loop does not panic; the values that it has sent to the handles of
  -- tasks, with those that the tasks left in the queues still owe, are, but for their order, the
  -- values of the tasks in the queues at the start and of those that were spawned.
  pub run-promised :
      (turns : List (Turn E (F × Option T) Operation R)) (ex : Executor (F × Option T) N)
      → IsValid ex
      → (ex' : Executor (F × Option T) N) × (out : List (R × Result (Unit {0}))) × (run io false
            (spawned poll_future)
            send
            ex
            turns
          ≡ some (ex', out))
        × IsValid ex'
        × Perm
            (all_sent io poll_future send ex turns ++ owed gives (all_tasks ex'.tasks))
            (owed gives (all_new turns) ++ owed gives (all_tasks ex.tasks))
  unfolding run all_sent
  run-promised [] ex v = (ex, [], refl, v, Perm.refl _)
  run-promised (turn ∷ turns) ex v =
      let (ex', out, e, v', p) = handle-promised turn ex turn.event v in
      let (last, outs, e', v'', q) = run-promised turns ex' v' in
      elim (Bool-cases turn.shutdown) [
        | inl s ↦ (ex', out, rw (run, e, s) refl, v', simp (e, s, append-nil) p)
        | inr s ↦ (
          last,
          out ++ outs,
          rw (run, e, e', s) refl,
          v'',
          simp (e, s, map-append (promised gives))
              (both_account (sent_in io poll_future send turn.env ex turn.event)
                (all_sent io poll_future send ex' turns) (owed gives (all_tasks last.tasks))
                (owed gives (new_in turn.event)) (owed gives (all_new turns))
                (owed gives (all_tasks ex.tasks)) (owed gives (all_tasks ex'.tasks)) p q),
        )
      ]

module _ {E F T : Type 0} (poll_future : E → F → F × Poll T) (work : F → ℕ)
    (falls : (env : E) (f : F)
      → (poll_future env f).1 ≡ pending
      → work (poll_future env f).0 < work f) where
  abbrev pub work_left : F × Option T → ℕ
  work_left (f, _) = work f

  work_left-falls :
      (env : E) (f : F × Option T)
      → (spawned poll_future env f).1 ≡ pending
      → work_left (spawned poll_future env f).0 < work_left f
  unfolding spawned
  work_left-falls env (f, sent) h = by_outcome (poll_future env f).1 refl h
    where
      by_outcome :
          (p : Poll T)
          → (poll_future env f).1 ≡ p
          → (spawned poll_future env (f, sent)).1 ≡ pending
          → work_left (spawned poll_future env (f, sent)).0 < work f
      by_outcome (ready val) e k = let wrong : ready tt ≡ pending = rw (spawned, e) at k in cc
      by_outcome pending e k = rw (spawned, e) (falls env f e)

module _ {E F T : Type 0} (poll_future : E → F → F × Poll T) (gives : F → T) (work : F → ℕ)
    (falls : (env : E) (f : F)
      → (poll_future env f).1 ≡ pending
      → work (poll_future env f).0 < work f)
    (keeps : (env : E) (f : F)
      → (poll_future env f).1 ≡ pending
      → gives (poll_future env f).0 ≡ gives f)
    (right : (env : E) (f : F) (val : T) → (poll_future env f).1 ≡ ready val → val ≡ gives f)
    {N Operation R : Type 0} (io : Bool) (send : N → IoOp Operation → Option N) where
  -- A spawned future gives its value to its handle, without the feature fairness. After any turns of the loop that do not find
  -- the flag set, as many more polls as the work of all tasks that are left and one more for each
  -- task empty all queues, and by then each task that was spawned, and each of the queues at the
  -- start, has sent exactly its value into the channel of its handle. Each poll of a future that is
  -- pending must lower its work and keep its value, and one that is ready must give that value.
  pub spawned-values :
      (turns : List (Turn E (F × Option T) Operation R)) (envs : List E)
      (ex ex' : Executor (F × Option T) N) (out : List (R × Result (Unit {0})))
      → IsValid ex
      → run io false (spawned poll_future) send ex turns ≡ some (ex', out)
      → total_work (work_left poll_future work falls) ex'.tasks ≤ length envs
      → (last : Executor (F × Option T) N) × (poll_each io (spawned poll_future) send envs ex'
          ≡ some last)
        × (all_tasks last.tasks ≡ [])
        × Perm
            (all_sent io poll_future send ex turns ++ values io poll_future send envs ex')
            (owed gives (all_new turns) ++ owed gives (all_tasks ex.tasks))
  spawned-values turns envs ex ex' out v e enough =
      let (ex₁, out₁, e₁, v₁, p) = run-promised poll_future gives keeps right io send turns ex v in
      let same : ex₁ ≡ ex' = ap (λ r. r.0) (some-injective (ex₁, out₁) (ex', out) (sym e₁ ∙ e)) in
      let v' : IsValid ex' = subst IsValid same v₁ in
      let (last, polls, none_left) =
        poll_each_finishes io (spawned poll_future) send (work_left poll_future work falls)
          (work_left-falls poll_future work falls) envs ex' v' enough in
      let sent = values-promised poll_future gives keeps right io send envs ex' last v' polls in
      let by_polls : Perm (values io poll_future send envs ex') (owed gives (all_tasks ex'.tasks)) =
        rw (none_left, append-nil (values io poll_future send envs ex')) at sent in
      (
        last,
        polls,
        none_left,
        Perm.trans (Perm.append_left (all_sent io poll_future send ex turns) by_polls) (
            subst
              (λ x.
                Perm (all_sent io poll_future send ex turns ++ owed gives (all_tasks x.tasks))
                  (owed gives (all_new turns) ++ owed gives (all_tasks ex.tasks)))
              same p),
      )
