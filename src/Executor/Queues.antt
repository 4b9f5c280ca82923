-- ===== src/Executor/Queues.antt =====
-- imputio/src/executor/handle.rs: the five queues. Each task stands in the queue of its priority,
-- and no index is ever out of range.
use mathlib.Core.Option.{some-injective}
use toy_io.Common.{
  ℕ, zero, suc, ◌+◌, ◌<◌, ◌≡◌, refl, sym, ap, subst, ◌∙◌, Bool, true, false, Option, none, some,
  List, [], ◌∷◌, ◌++◌, arith, length, ◌⊎◌, inl, inr, Bool-cases,
}
use toy_io.Task.{Poll, ready, pending, ImputioTask, Priority, priority_index, poll_task}
use toy_io.Io.{IoOp}
use toy_io.Executor.Protocol.{Transaction, Turn, Result}
use toy_io.Executor.{
  push_back_at, find_pop, find_pop_from_2, get_task, Executor, initialize, spawn, requeue,
  poll_next, poll_io, poll, push_to_poller, handle, run,
}

-- `n` empty queues.
abbrev pub empties : {A : Type 0} → ℕ → List (List A)
empties zero = []
empties (suc n) = [] ∷ empties n

-- The tasks of all queues, in the order of the queues.
abbrev pub all_tasks : {A : Type 0} → List (List A) → List A
all_tasks [] = []
all_tasks (q ∷ qs) = q ++ all_tasks qs

module _ {A : Type 0} where
  -- What `find_pop` does: nothing if all queues are empty, and otherwise it takes the front of the
  -- first queue that is not.
  abbrev pub Pops : List (List A) → List (List A) × Option A → Type 0
  Pops qs r =
      ((r ≡ (qs, none)) × (all_tasks qs ≡ []))
      ⊎ ((k : ℕ) × (t : A) × (q : List A) × (rest : List (List A)) × (qs
            ≡ empties k ++ (t ∷ q) ∷ rest)
          × (r ≡ (empties k ++ q ∷ rest, some t)))

  pub find_pop-Pops : (qs : List (List A)) → Pops qs (find_pop qs)
  unfolding find_pop
  find_pop-Pops [] = inl (refl, refl)
  find_pop-Pops ([] ∷ qs) = elim (find_pop-Pops qs) [
    | inl (e, n) ↦ inl (rw e refl, n)
    | inr (k, t, q, rest, e, r) ↦ inr (suc k, t, q, rest, ap (◌∷◌ []) e, rw r refl)
  ]
  find_pop-Pops ((a ∷ q) ∷ qs) = inr (0, a, q, qs, refl, refl)

  pub push_back_at-empties :
      (k : ℕ) (q : List A) (rest : List (List A)) (a : A)
      → push_back_at (empties k ++ q ∷ rest) k a ≡ some (empties k ++ (q ++ a ∷ []) ∷ rest)
  unfolding push_back_at
  push_back_at-empties zero q rest a = refl
  push_back_at-empties (suc k) q rest a = rw (push_back_at-empties k q rest a) refl

module _ {F : Type 0} where
  abbrev pub AllAt : ℕ → List (ImputioTask F) → Type 0
  AllAt i [] = Unit
  AllAt i (t ∷ q) = (priority_index t.priority ≡ i) × AllAt i q

  -- The queues from index `i` on hold tasks of the priority of their index only.
  abbrev pub IsLevelled : ℕ → List (List (ImputioTask F)) → Type 0
  IsLevelled i [] = Unit
  IsLevelled i (q ∷ qs) = AllAt i q × IsLevelled (suc i) qs

  AllAt-append :
      (i : ℕ) (q : List (ImputioTask F)) (t : ImputioTask F)
      → AllAt i q
      → priority_index t.priority ≡ i
      → AllAt i (q ++ t ∷ [])
  AllAt-append i [] t h e = (e, tt)
  AllAt-append i (x ∷ q) t h e = (h.0, AllAt-append i q t h.1 e)

  push_back_at-IsLevelled :
      (qs : List (List (ImputioTask F))) (i j : ℕ) (t : ImputioTask F)
      → priority_index t.priority ≡ i + j
      → j < length qs
      → IsLevelled i qs
      → (qs' : List (List (ImputioTask F))) × (push_back_at qs j t ≡ some qs')
        × (length qs' ≡ length qs)
        × IsLevelled i qs'
  unfolding push_back_at
  push_back_at-IsLevelled [] i j t p n h = absurd (omega arith)
  push_back_at-IsLevelled (q ∷ qs) i zero t p n h =
      ((q ++ t ∷ []) ∷ qs, refl, refl, (AllAt-append i q t h.0 (omega arith), h.1))
  push_back_at-IsLevelled (q ∷ qs) i (suc j) t p n h =
      let (qs', e, m, l) = push_back_at-IsLevelled qs (suc i) j t (omega arith) (omega arith) h.1 in
      (q ∷ qs', rw e refl, omega (arith, m), (h.0, l))

  find_pop-IsLevelled :
      (qs : List (List (ImputioTask F))) (i : ℕ)
      → IsLevelled i qs
      → (length (find_pop qs).0 ≡ length qs) × IsLevelled i (find_pop qs).0
  unfolding find_pop
  find_pop-IsLevelled [] i h = (refl, tt)
  find_pop-IsLevelled ([] ∷ qs) i h =
      let (n, l) = find_pop-IsLevelled qs (suc i) h.1 in (omega (arith, n), (tt, l))
  find_pop-IsLevelled ((t ∷ q) ∷ qs) i h = (refl, (h.0.1, h.1))

  pub get_task-IsLevelled :
      (f c : Bool) (qs : List (List (ImputioTask F))) (i : ℕ)
      → IsLevelled i qs
      → (length (get_task f c qs).0 ≡ length qs) × IsLevelled i (get_task f c qs).0
  unfolding get_task find_pop_from_2
  get_task-IsLevelled true true [] i h = (refl, h)
  get_task-IsLevelled true true (q₀ ∷ []) i h = (refl, h)
  get_task-IsLevelled true true (q₀ ∷ q₁ ∷ qs) i h =
      let (n, l) = find_pop-IsLevelled qs (suc (suc i)) h.1.1 in
      (omega (arith, n), (h.0, (h.1.0, l)))
  get_task-IsLevelled true false qs i h = find_pop-IsLevelled qs i h
  get_task-IsLevelled false c qs i h = find_pop-IsLevelled qs i h

priority_index-lt : (p : Priority) → priority_index p < 5
priority_index-lt p = ground arith

module _ {F N : Type 0} where
  -- There are five queues, and each holds the tasks of its priority. So the first, which is kept
  -- for the system, is empty.
  pub record IsValid (ex : Executor F N) : Type 0 where
    pub five : length ex.tasks ≡ 5
    pub levelled : IsLevelled 0 ex.tasks

  pub initialize-IsValid : (n : N) (parking : Option ℕ) → IsValid (initialize {F = F} n parking)
  unfolding initialize
  initialize-IsValid n parking = record { five = refl; levelled = (tt, (tt, (tt, (tt, (tt, tt))))) }

  -- The operation does not panic, and leaves the queues in order.
  abbrev pub Keeps : Option (Executor F N) → Type 0
  Keeps r = (ex' : Executor F N) × (r ≡ some ex') × IsValid ex'

  pub spawn-IsValid :
      (ex : Executor F N) (task : ImputioTask F) → IsValid ex → Keeps (spawn ex task)
  unfolding spawn
  spawn-IsValid ex task v =
      let (qs', e, n, l) =
        push_back_at-IsLevelled ex.tasks 0 (priority_index task.priority) task (omega arith)
          (omega (arith, priority_index-lt task.priority, v.five)) v.levelled in
      (record ex { tasks = qs' }, rw e refl, record { five = n ∙ v.five; levelled = l })

module _ {E F N : Type 0} (poll_future : E → F → F × Poll (Unit {0})) where
  requeue-IsValid :
      (ex : Executor F N) (r : ImputioTask F × Poll (Unit {0}))
      → IsValid ex
      → Keeps (requeue poll_future ex r)
  unfolding requeue
  requeue-IsValid ex (task, ready _) v = (ex, refl, v)
  requeue-IsValid ex (task, pending) v = spawn-IsValid ex task v

  poll_next-IsValid :
      (env : E) (ex : Executor F N) (o : Option (ImputioTask F))
      → IsValid ex
      → Keeps (poll_next poll_future env ex o)
  unfolding poll_next
  poll_next-IsValid env ex none v = (ex, refl, v)
  poll_next-IsValid env ex (some task) v = requeue-IsValid ex (poll_task poll_future env task) v

module _ {E F N Operation : Type 0} (io fairness : Bool) (poll_future : E → F → F × Poll (Unit {0}))
    (send : N → IoOp Operation → Option N) where
  pub poll_io-tasks :
      (ex : Executor F N) → (poll_io io fairness poll_future send ex).tasks ≡ ex.tasks
  unfolding poll_io
  poll_io-tasks ex = ground arith

  -- The tasks after a poll do not depend on the I/O side.
  pub poll_eq :
      (env : E) (coin : Bool) (ex : Executor F N)
      → poll io fairness poll_future send env coin ex
        ≡ poll_next poll_future env
            (record (poll_io io fairness poll_future send ex) {
              tasks = (get_task fairness coin ex.tasks).0;
            })
            (get_task fairness coin ex.tasks).1
  unfolding poll
  poll_eq env coin ex = rw (poll_io-tasks ex) refl

  pub poll-IsValid :
      (env : E) (coin : Bool) (ex : Executor F N)
      → IsValid ex
      → Keeps (poll io fairness poll_future send env coin ex)
  poll-IsValid env coin ex v =
      let (n, l) = get_task-IsLevelled fairness coin ex.tasks 0 v.levelled in
      rw (poll_eq env coin ex) (
        poll_next-IsValid poll_future env _ (get_task fairness coin ex.tasks).1
          (record { five = n ∙ v.five; levelled = l }))

  pub poll-IsValid_at :
      (env : E) (coin : Bool) (ex ex' : Executor F N)
      → IsValid ex
      → poll io fairness poll_future send env coin ex ≡ some ex'
      → IsValid ex'
  poll-IsValid_at env coin ex ex' v e =
      let (ex₁, r, v₁) = poll-IsValid env coin ex v in
      subst IsValid (some-injective ex₁ ex' (sym r ∙ e)) v₁

module _ {E F N Operation R : Type 0} (io fairness : Bool)
    (poll_future : E → F → F × Poll (Unit {0})) (send : N → IoOp Operation → Option N) where
  abbrev Handles : Option (Executor F N × List (R × Result (Unit {0}))) → Type 0
  Handles r =
      (ex' : Executor F N) × (out : List (R × Result (Unit {0}))) × (r ≡ some (ex', out))
      × IsValid ex'

  handle-IsValid :
      (turn : Turn E F Operation R) (ex : Executor F N) (o : Option (Transaction F Operation R))
      → IsValid ex
      → Handles (handle io fairness poll_future send turn ex o)
  unfolding handle
  handle-IsValid turn ex none v = (ex, [], refl, v)
  handle-IsValid turn ex (some Transaction.poll) v =
      let (ex', e, v') = poll-IsValid io fairness poll_future send turn.env turn.coin ex v in
      (ex', [], rw (handle, e) refl, v')
  handle-IsValid turn ex (some (Transaction.spawn task)) v =
      let (ex', e, v') = spawn-IsValid ex task v in (ex', [], rw (handle, e) refl, v')
  handle-IsValid turn ex (some (Transaction.submit_io_op op reply)) v =
      unfold push_to_poller in (_, _, refl, record { five = v.five; levelled = v.levelled })

  -- Whatever arrives, and whatever the futures and the I/O side do, the executor does not panic on
  -- a queue index, and at the end there are still five queues with the tasks of their priority.
  -- This holds with each of the features io and fairness and without it.
  pub run-IsValid :
      (turns : List (Turn E F Operation R)) (ex : Executor F N)
      → IsValid ex
      → (ex' : Executor F N) × (out : List (R × Result (Unit {0}))) × (run io fairness poll_future
            send ex turns
          ≡ some (ex', out))
        × IsValid ex'
  unfolding run
  run-IsValid [] ex v = (ex, [], refl, v)
  run-IsValid (turn ∷ turns) ex v =
      let (ex', out, e, v') = handle-IsValid turn ex turn.event v in
      let (last, outs, e', v'') = run-IsValid turns ex' v' in
      elim (Bool-cases turn.shutdown) [
        | inl s ↦ (ex', out, rw (run, e, s) refl, v')
        | inr s ↦ (last, out ++ outs, rw (run, e, e', s) refl, v'')
      ]
