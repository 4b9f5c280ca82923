-- ===== src/Executor/Every.antt =====
-- imputio/src/executor/handle.rs: a property of all tasks in the queues, which taking a task and
-- putting one back preserve.
use toy_io.Common.{
  ℕ, zero, suc, ◌≡◌, Bool, true, false, Option, none, some, OnSome, List, [], ◌∷◌, ◌++◌,
}
use toy_io.Executor.Queues.{empties, all_tasks}
use toy_io.Executor.{push_back_at, find_pop, find_pop_from_2, get_task}

module _ {A : Type 0} (P : A → Type 0) where
  abbrev pub AllOf : List A → Type 0
  AllOf [] = Unit
  AllOf (t ∷ q) = P t × AllOf q

  abbrev pub QueuesOf : List (List A) → Type 0
  QueuesOf [] = Unit
  QueuesOf (q ∷ qs) = AllOf q × QueuesOf qs

  pub AllOf-append : (q : List A) (t : A) → AllOf q → P t → AllOf (q ++ t ∷ [])
  AllOf-append [] t h o = (o, tt)
  AllOf-append (x ∷ q) t h o = (h.0, AllOf-append q t h.1 o)

  pub AllOf-last : (q : List A) (t : A) → AllOf (q ++ t ∷ []) → AllOf q × P t
  AllOf-last [] t h = (tt, h.0)
  AllOf-last (x ∷ q) t h = let (rest, o) = AllOf-last q t h.1 in ((h.0, rest), o)

  -- The first queue that is not empty is replaced.
  pub QueuesOf-at :
      (l : ℕ) (q r : List A) (rest : List (List A))
      → (AllOf q → AllOf r)
      → QueuesOf (empties l ++ q ∷ rest)
      → QueuesOf (empties l ++ r ∷ rest)
  QueuesOf-at zero q r rest f h = (f h.0, h.1)
  QueuesOf-at (suc l) q r rest f h = (tt, QueuesOf-at l q r rest f h.1)

  pub QueuesOf-front :
      (l : ℕ) (t : A) (q : List A) (rest : List (List A))
      → QueuesOf (empties l ++ (t ∷ q) ∷ rest)
      → P t
  QueuesOf-front zero t q rest h = h.0.0
  QueuesOf-front (suc l) t q rest h = QueuesOf-front l t q rest h.1

  pub QueuesOf-none : (qs : List (List A)) → all_tasks qs ≡ [] → QueuesOf qs
  QueuesOf-none [] e = tt
  QueuesOf-none ([] ∷ qs) e = (tt, QueuesOf-none qs e)
  QueuesOf-none ((t ∷ q) ∷ qs) e = cc

  pub push_back_at-Of :
      (qs : List (List A)) (i : ℕ) (t : A)
      → QueuesOf qs
      → P t
      → OnSome QueuesOf (push_back_at qs i t)
  unfolding push_back_at
  push_back_at-Of [] i t h o = tt
  push_back_at-Of (q ∷ qs) zero t h o = (AllOf-append q t h.0 o, h.1)
  push_back_at-Of (q ∷ qs) (suc i) t h o =
      cons q (push_back_at qs i t) h.0 (push_back_at-Of qs i t h.1 o)
    where
      cons :
          (q : List A) (o : Option (List (List A)))
          → AllOf q
          → OnSome QueuesOf o
          → OnSome QueuesOf (elim o [ none ↦ none | some qs' ↦ some (q ∷ qs') ])
      cons q none h g = tt
      cons q (some qs') h g = (h, g)

  -- The queues that are left, and the task that was taken.
  abbrev pub TakenOf : List (List A) × Option A → Type 0
  TakenOf (qs, t) = QueuesOf qs × OnSome P t

  pub find_pop-Of : (qs : List (List A)) → QueuesOf qs → TakenOf (find_pop qs)
  unfolding find_pop
  find_pop-Of [] h = (tt, tt)
  find_pop-Of ([] ∷ qs) h = let (rest, o) = find_pop-Of qs h.1 in ((tt, rest), o)
  find_pop-Of ((t ∷ q) ∷ qs) h = ((h.0.1, h.1), h.0.0)

  pub get_task-Of :
      (fairness coin : Bool) (qs : List (List A))
      → QueuesOf qs
      → TakenOf (get_task fairness coin qs)
  unfolding get_task find_pop_from_2
  get_task-Of true true [] h = (h, tt)
  get_task-Of true true (q₀ ∷ []) h = (h, tt)
  get_task-Of true true (q₀ ∷ q₁ ∷ qs) h =
      let (rest, o) = find_pop-Of qs h.1.1 in ((h.0, (h.1.0, rest)), o)
  get_task-Of true false qs h = find_pop-Of qs h
  get_task-Of false coin qs h = find_pop-Of qs h
