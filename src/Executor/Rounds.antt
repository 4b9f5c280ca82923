-- ===== src/Executor/Rounds.antt =====
-- imputio/src/executor/handle.rs: a poll after another, without the feature fairness. Within a
-- priority the tasks take turns, and a lower priority waits while a higher one has a task.
use toy_io.Common.{
  ℕ, ◌≡◌, refl, ap, ◌∙◌, sym, subst, Bool, false, Option, none, some, List, [], ◌∷◌, ◌++◌,
  append-nil, append_assoc,
}
use toy_io.Task.{Poll, pending, ImputioTask, poll_task}
use toy_io.Io.{IoOp}
use toy_io.Executor.{Executor, poll}
use toy_io.Executor.Queues.{empties, IsValid}
use toy_io.Executor.Priorities.{poll_pending}

module _ {E F N Operation : Type 0} (io : Bool) (poll_future : E → F → F × Poll (Unit {0}))
    (send : N → IoOp Operation → Option N) where
  -- A poll for each of the environments, the executor being told nothing else.
  unfoldable pub poll_each : List E → Executor F N → Option (Executor F N)
  poll_each [] ex = some ex
  poll_each (env ∷ envs) ex = elim (poll io false poll_future send env false ex) [
    | none ↦ none
    | some ex' ↦ poll_each envs ex'
  ]

module _ {E F : Type 0} (poll_future : E → F → F × Poll (Unit {0})) where
  -- The tasks after one poll each.
  abbrev pub once_each : List E → List (ImputioTask F) → List (ImputioTask F)
  once_each (env ∷ envs) (t ∷ q) = (poll_task poll_future env t).0 ∷ once_each envs q
  once_each _ _ = []

  -- Each of the tasks is pending after its poll; there are as many environments as tasks.
  abbrev pub Pending : List E → List (ImputioTask F) → Type 0
  Pending [] [] = Unit
  Pending (env ∷ envs) (t ∷ q) = ((poll_task poll_future env t).1 ≡ pending) × Pending envs q
  Pending _ _ = ⊥

module _ {E F N Operation : Type 0} (io : Bool) (poll_future : E → F → F × Poll (Unit {0}))
    (send : N → IoOp Operation → Option N) where
  round :
      (envs : List E) (ts done : List (ImputioTask F)) (k : ℕ) (rest : List (List (ImputioTask F)))
      (ex : Executor F N)
      → IsValid ex
      → Pending poll_future envs ts
      → ex.tasks ≡ empties k ++ (ts ++ done) ∷ rest
      → (ex' : Executor F N) × (poll_each io poll_future send envs ex ≡ some ex')
        × (ex'.tasks ≡ empties k ++ (done ++ once_each poll_future envs ts) ∷ rest)
  unfolding poll_each
  round [] [] done k rest ex v p e =
      (ex, refl, e ∙ ap (λ l. empties k ++ l ∷ rest) (sym (append-nil done)))
  round [] (t ∷ ts) done k rest ex v p e = absurd p
  round (env ∷ envs) [] done k rest ex v p e = absurd p
  round (env ∷ envs) (t ∷ ts) done k rest ex v p e =
      let t' = (poll_task poll_future env t).0 in
      let (ex₁, r, tasks, v₁) =
        poll_pending io poll_future send env false ex k t (ts ++ done) rest v e p.0 in
      let (last, s, d) =
        round envs ts (done ++ t' ∷ []) k rest ex₁ v₁ p.1
          (tasks ∙ ap (λ l. empties k ++ l ∷ rest) (append_assoc ts done (t' ∷ []))) in
      (
        last,
        rw (poll_each, r) s,
        d
            ∙ ap (λ l. empties k ++ l ∷ rest)
                (append_assoc done (t' ∷ []) (once_each poll_future envs ts)),
      )

  -- Without the feature fairness tasks of one priority take turns: with no task of a higher
  -- priority, and while no task is finished, as many polls as the queue is long poll each of its
  -- tasks exactly once, in the order of the queue, and leave them in that order. The queues of
  -- lower priorities do not change.
  pub poll_each_round :
      (envs : List E) (ts : List (ImputioTask F)) (k : ℕ) (rest : List (List (ImputioTask F)))
      (ex : Executor F N)
      → IsValid ex
      → Pending poll_future envs ts
      → ex.tasks ≡ empties k ++ ts ∷ rest
      → (ex' : Executor F N) × (poll_each io poll_future send envs ex ≡ some ex')
        × (ex'.tasks ≡ empties k ++ once_each poll_future envs ts ∷ rest)
  poll_each_round envs ts k rest ex v p e =
      round envs ts [] k rest ex v p (e ∙ ap (λ l. empties k ++ l ∷ rest) (sym (append-nil ts)))

module _ {E F N Operation : Type 0} (io : Bool) (poll_future : E → F → F × Poll (Unit {0}))
    (send : N → IoOp Operation → Option N) (Waits : F → Type 0)
    (waits : (env : E) (f : F)
      → Waits f
      → ((poll_future env f).1 ≡ pending) × Waits (poll_future env f).0) where
  abbrev AllWait : List (ImputioTask F) → Type 0
  AllWait [] = Unit
  AllWait (t ∷ q) = Waits t.future × AllWait q

  AllWait-append :
      (q : List (ImputioTask F)) (t : ImputioTask F)
      → AllWait q
      → Waits t.future
      → AllWait (q ++ t ∷ [])
  AllWait-append [] t h w = (w, tt)
  AllWait-append (x ∷ q) t h w = (h.0, AllWait-append q t h.1 w)

  snoc-cons :
      (q : List (ImputioTask F)) (t : ImputioTask F)
      → (x : ImputioTask F) × (q' : List (ImputioTask F)) × (q ++ t ∷ [] ≡ x ∷ q')
  snoc-cons [] t = (t, [], refl)
  snoc-cons (x ∷ q) t = (x, q ++ t ∷ [], refl)

  -- Without the feature fairness lower priorities starve: while the highest priority that has tasks
  -- has only tasks that wait for something and stay pending however often they are polled, no
  -- number of polls touches a queue of a lower priority.
  pub poll_each_starves :
      (envs : List E) (t : ImputioTask F) (q : List (ImputioTask F)) (k : ℕ)
      (rest : List (List (ImputioTask F))) (ex : Executor F N)
      → IsValid ex
      → ex.tasks ≡ empties k ++ (t ∷ q) ∷ rest
      → AllWait (t ∷ q)
      → (ex' : Executor F N) × (q' : List (ImputioTask F)) × (poll_each io poll_future send envs ex
          ≡ some ex')
        × (ex'.tasks ≡ empties k ++ q' ∷ rest)
  unfolding poll_each
  poll_each_starves [] t q k rest ex v e h = (ex, t ∷ q, refl, e)
  poll_each_starves (env ∷ envs) t q k rest ex v e h =
      let (p, w) = waits env t.future h.0 in
      let t' = (poll_task poll_future env t).0 in
      let (ex₁, r, tasks, v₁) =
        poll_pending io poll_future send env false ex k t q rest v e
          (unfold poll_task in rw p refl) in
      let (x, q₁, split) = snoc-cons q t' in
      let (last, q', s, d) =
        poll_each_starves envs x q₁ k rest ex₁ v₁ (tasks ∙ ap (λ l. empties k ++ l ∷ rest) split)
          (subst AllWait split (AllWait-append q t' h.1 (unfold poll_task in w))) in
      (last, q', rw (poll_each, r) s, d)
