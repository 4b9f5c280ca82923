-- ===== src/Executor/Fairness.antt =====
-- imputio/src/executor/handle.rs: what the feature fairness is for, that tasks of the two highest
-- priorities cannot keep those of the lower ones from their polls.
use toy_io.Common.{
  ℕ, suc, ◌<◌, inl, inr, ◌⊎◌, get_elem?, ◌+◌, ◌≤◌, ◌≡◌, ◌≢◌, refl, ap, ◌∙◌, subst, Bool, true,
  false, Option, none, some, List, [], ◌∷◌, ◌++◌, append_assoc, arith, length, if◌then◌else◌,
}
use toy_io.Task.{Poll, ready, pending, ImputioTask, Priority, priority_index, poll_task}
use toy_io.Io.{IoOp}
use toy_io.Executor.{
  find_pop_from_2, find_pop, get_task, push_back_at, Executor, spawn, requeue, poll_next, poll_io,
  poll,
}
use toy_io.Executor.Queues.{
  empties, IsValid, IsLevelled, push_back_at-empties, poll_eq, poll-IsValid_at,
}
use toy_io.Executor.Priorities.{find_pop-empties, requeued, IsLevelled-at, requeue_at}

none_first : (p : Priority) → priority_index p ≢ 0
none_first p e = ground (arith, e)

module _ {E F N Operation : Type 0} (io : Bool) (poll_future : E → F → F × Poll (Unit {0}))
    (send : N → IoOp Operation → Option N) where
  abbrev taken_rest :
      (Executor F N → List (Option (ImputioTask F)))
      → Option (Executor F N)
      → List (Option (ImputioTask F))
  taken_rest rest none = []
  taken_rest rest (some ex) = rest ex

  -- The tasks that are polled, over polls with the coins that fairness tosses.
  abbrev pub taken : List (E × Bool) → Executor F N → List (Option (ImputioTask F))
  taken [] ex = []
  taken ((env, coin) ∷ turns) ex =
      (get_task true coin ex.tasks).1
      ∷ taken_rest (taken turns) (poll io true poll_future send env coin ex)

  -- How often the coin comes up true.
  abbrev pub trues : List (E × Bool) → ℕ
  trues [] = 0
  trues ((_, coin) ∷ turns) = (if coin then 1 else 0) + trues turns

  -- The task stands behind these others in the first queue behind the first two that is not empty.
  abbrev pub Stands : ℕ → ImputioTask F → List (ImputioTask F) → Executor F N → Type 0
  Stands k t before ex =
      (q₀ : List (ImputioTask F)) × (q₁ : List (ImputioTask F)) × (after : List (ImputioTask F))
      × (rest : List (List (ImputioTask F))) × (ex.tasks
          ≡ q₀ ∷ q₁ ∷ (empties k ++ (before ++ t ∷ after) ∷ rest))

  push_back_later :
      (k : ℕ) (q₀ q₁ q : List (ImputioTask F)) (rest : List (List (ImputioTask F)))
      (t : ImputioTask F)
      → push_back_at (q₀ ∷ q₁ ∷ (empties k ++ q ∷ rest)) (suc (suc k)) t
        ≡ some (q₀ ∷ q₁ ∷ (empties k ++ (q ++ t ∷ []) ∷ rest))
  unfolding push_back_at
  push_back_later k q₀ q₁ q rest t = rw (push_back_at, push_back_at-empties k q rest t) refl

  requeue_later :
      (ex : Executor F N) (k : ℕ) (q₀ q₁ q : List (ImputioTask F))
      (rest : List (List (ImputioTask F))) (r : ImputioTask F × Poll (Unit {0}))
      → ex.tasks ≡ q₀ ∷ q₁ ∷ (empties k ++ q ∷ rest)
      → priority_index r.0.priority ≡ suc (suc k)
      → requeue poll_future ex r
        ≡ some (record ex { tasks = q₀ ∷ q₁ ∷ (empties k ++ requeued r q ∷ rest) })
  unfolding requeue spawn
  requeue_later ex k q₀ q₁ q rest (task, ready _) e p = ap (λ ts. some (record ex { tasks = ts })) e
  requeue_later ex k q₀ q₁ q rest (task, pending) e p =
      rw (e, p, push_back_later k q₀ q₁ q rest task) refl

  requeued-behind :
      (r : ImputioTask F × Poll (Unit {0})) (before : List (ImputioTask F)) (t : ImputioTask F)
      (after : List (ImputioTask F))
      → (after' : List (ImputioTask F)) × (requeued r (before ++ t ∷ after) ≡ before ++ t ∷ after')
  requeued-behind (task, ready _) before t after = (after, refl)
  requeued-behind (task, pending) before t after =
      (after ++ task ∷ [], append_assoc before (t ∷ after) (task ∷ []))

  -- What is true after a poll, with a number for the coin.
  abbrev Nears : ℕ → ℕ → ImputioTask F → ℕ → Option (Executor F N) → Type 0
  Nears c k t n r =
      (ex' : Executor F N) × (before' : List (ImputioTask F)) × (r ≡ some ex')
      × IsValid ex'
      × Stands k t before' ex'
      × (length before' + c ≤ n)

  later_front :
      (env : E) (coin : Bool) (ex : Executor F N) (k : ℕ) (q₀ q₁ : List (ImputioTask F))
      (b t : ImputioTask F) (before after : List (ImputioTask F))
      (rest : List (List (ImputioTask F)))
      → IsValid ex
      → ex.tasks ≡ q₀ ∷ q₁ ∷ (empties k ++ (b ∷ before ++ t ∷ after) ∷ rest)
      → get_task true coin ex.tasks
        ≡ (q₀ ∷ q₁ ∷ (empties k ++ (before ++ t ∷ after) ∷ rest), some b)
      → Nears 1 k t (suc (length before)) (poll io true poll_future send env coin ex)
  unfolding poll_next poll_task
  later_front env coin ex k q₀ q₁ b t before after rest v e g =
      let level : priority_index b.priority ≡ suc (suc k) = omega (
        arith,
        IsLevelled-at k 2 b (before ++ t ∷ after) rest (subst (IsLevelled 0) e v.levelled).1.1,
      ) in
      let ex₁ = poll_io io true poll_future send ex in
      let r = poll_task poll_future env b in
      let (after', same) = requeued-behind r before t after in
      let ex₂ = record ex₁ {
        tasks = q₀ ∷ q₁ ∷ (empties k ++ requeued r (before ++ t ∷ after) ∷ rest);
      } in
      let polled : poll io true poll_future send env coin ex ≡ some ex₂ =
        poll_eq io true poll_future send env coin ex
        ∙ ap (λ x. poll_next poll_future env (record ex₁ { tasks = x.0 }) x.1) g
        ∙ requeue_later
            (record ex₁ { tasks = q₀ ∷ q₁ ∷ (empties k ++ (before ++ t ∷ after) ∷ rest) }) k q₀ q₁
            (before ++ t ∷ after) rest r refl level in
      (
        ex₂,
        before,
        polled,
        poll-IsValid_at io true poll_future send env coin ex ex₂ v polled,
        (q₀, q₁, after', rest, ap (λ l. q₀ ∷ q₁ ∷ (empties k ++ l ∷ rest)) same),
        omega arith,
      )

  -- With a coin that is false and a task of the second queue, that task is polled.
  second_front :
      (env : E) (ex : Executor F N) (k : ℕ) (x t : ImputioTask F)
      (xs before after : List (ImputioTask F)) (rest : List (List (ImputioTask F)))
      → IsValid ex
      → ex.tasks ≡ [] ∷ (x ∷ xs) ∷ (empties k ++ (before ++ t ∷ after) ∷ rest)
      → Nears 0 k t (length before) (poll io true poll_future send env false ex)
  unfolding get_task poll_next poll_task
  second_front env ex k x t xs before after rest v e =
      let later = empties k ++ (before ++ t ∷ after) ∷ rest in
      let level : priority_index x.priority ≡ 1 =
        omega (arith, IsLevelled-at 1 0 x xs later (subst (IsLevelled 0) e v.levelled)) in
      let ex₁ = poll_io io true poll_future send ex in
      let r = poll_task poll_future env x in
      let ex₂ = record ex₁ { tasks = [] ∷ requeued r xs ∷ later } in
      let polled : poll io true poll_future send env false ex ≡ some ex₂ =
        poll_eq io true poll_future send env false ex
        ∙ ap (λ g. poll_next poll_future env (record ex₁ { tasks = g.0 }) g.1)
            (ap find_pop e ∙ find_pop-empties 1 x xs later)
        ∙ requeue_at poll_future (record ex₁ { tasks = [] ∷ xs ∷ later }) 1 xs later r refl level in
      (
        ex₂,
        before,
        polled,
        poll-IsValid_at io true poll_future send env false ex ex₂ v polled,
        ([], requeued r xs, after, rest, refl),
        omega arith,
      )

  abbrev Turned :
      Bool → ℕ → ImputioTask F → ℕ → Option (ImputioTask F) → Option (Executor F N) → Type 0
  Turned coin k t n took r = (took ≡ some t) ⊎ Nears (if coin then 1 else 0) k t n r

  -- One poll: the task is polled, or it comes nearer if the coin is true.
  fair_turn :
      (env : E) (coin : Bool) (ex : Executor F N) (k : ℕ) (t : ImputioTask F)
      (before : List (ImputioTask F))
      → IsValid ex
      → Stands k t before ex
      → Turned coin k t
          (length before)
          (get_task true coin ex.tasks).1
          (poll io true poll_future send env coin ex)
  unfolding get_task find_pop_from_2
  fair_turn env true ex k t [] v (q₀, q₁, after, rest, e) =
      inl (rw (e, find_pop-empties k t after rest) refl)
  fair_turn env true ex k t (b ∷ before) v (q₀, q₁, after, rest, e) = inr (
      later_front env true ex k q₀ q₁ b t before after rest v e
        (rw (e, find_pop-empties k b (before ++ t ∷ after) rest) refl))
  fair_turn env false ex k t before v (x ∷ q₀, q₁, after, rest, e) =
      let level : priority_index x.priority ≡ 0 = (subst (IsLevelled 0) e v.levelled).0.0 in
      absurd (none_first x.priority level)
  fair_turn env false ex k t before v ([], x ∷ q₁, after, rest, e) =
      inr (second_front env ex k x t q₁ before after rest v e)
  fair_turn env false ex k t [] v ([], [], after, rest, e) =
      inl (ap (λ g. g.1) (ap find_pop e ∙ find_pop-empties (suc (suc k)) t after rest))
  fair_turn env false ex k t (b ∷ before) v ([], [], after, rest, e) =
      let (ex', before', r, v', s, n) =
        later_front env false ex k [] [] b t before after rest v e
          (ap find_pop e ∙ find_pop-empties (suc (suc k)) b (before ++ t ∷ after) rest) in
      inr (ex', before', r, v', s, omega (arith, n))

  -- With the feature fairness a task of the priorities medium to best effort is polled, whatever
  -- the tasks of higher priorities do that wait in the first two queues. Let it stand behind some
  -- others in the first of the later queues that is not empty, with no new tasks meanwhile. If the
  -- coin comes up true more often than there are others before it, one of the polls is of this
  -- task.
  pub fairness_reaches :
      (turns : List (E × Bool)) (ex : Executor F N) (k : ℕ) (t : ImputioTask F)
      (before : List (ImputioTask F))
      → IsValid ex
      → Stands k t before ex
      → length before < trues turns
      → (i : ℕ) × (get_elem? (taken turns ex) i ≡ some (some t))
  fairness_reaches [] ex k t before v s h = absurd (omega (arith, h))
  fairness_reaches ((env, coin) ∷ turns) ex k t before v s h =
      elim (fair_turn env coin ex k t before v s) [
        | inl e ↦ (0, ap (λ x. some x) e)
        | inr (ex', before', r, v', s', n) ↦
            let (i, found) = fairness_reaches turns ex' k t before' v' s' (omega (arith, h, n)) in
            (suc i, ap (λ o. get_elem? (taken_rest (taken turns) o) i) r ∙ found)
      ]
