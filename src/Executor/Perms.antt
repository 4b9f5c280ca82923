-- ===== src/Executor/Perms.antt =====
-- imputio/src/executor/handle.rs: a task that is put into a queue is one task more, up to the
-- order.
use mathlib.Core.List.{Perm, perm_append_singleton, perm_append_comm, perm_middle}
use mathlib.Core.List.Perm
use toy_io.Common.{ℕ, zero, suc, Option, none, some, OnSome, List, [], ◌∷◌, ◌++◌, append_assoc}
use toy_io.Task.{ImputioTask, priority_index}
use toy_io.Executor.{Executor, push_back_at, spawn, with_tasks}
use toy_io.Executor.Queues.{all_tasks}

module _ {A : Type 0} where
  -- `push_back` adds the task to those of the queues.
  pub push_back_at-perm :
      (qs : List (List A)) (i : ℕ) (a : A)
      → OnSome (λ qs'. Perm (all_tasks qs') (a ∷ all_tasks qs)) (push_back_at qs i a)
  unfolding push_back_at
  push_back_at-perm [] i a = tt
  push_back_at-perm (q ∷ qs) zero a = Perm.append_right (all_tasks qs) (perm_append_singleton a q)
  push_back_at-perm (q ∷ qs) (suc i) a = behind (push_back_at qs i a) (push_back_at-perm qs i a)
    where
      behind :
          (o : Option (List (List A)))
          → OnSome (λ rest. Perm (all_tasks rest) (a ∷ all_tasks qs)) o
          → OnSome
              (λ qs'. Perm (all_tasks qs') (a ∷ all_tasks (q ∷ qs)))
              (elim o [ none ↦ none | some rest ↦ some (q ∷ rest) ])
      behind none h = tt
      behind (some rest) h = Perm.trans (Perm.append_left q h) (perm_middle q (all_tasks qs))

module _ {F N : Type 0} where
  pub spawn-perm :
      (ex : Executor F N) (task : ImputioTask F)
      → OnSome (λ ex'. Perm (all_tasks ex'.tasks) (task ∷ all_tasks ex.tasks)) (spawn ex task)
  unfolding spawn with_tasks
  spawn-perm ex task = set_tasks (push_back_at ex.tasks i task) (push_back_at-perm ex.tasks i task)
    where
      i : ℕ
      i = priority_index task.priority

      set_tasks :
          (o : Option (List (List (ImputioTask F))))
          → OnSome (λ qs. Perm (all_tasks qs) (task ∷ all_tasks ex.tasks)) o
          → OnSome (λ ex'. Perm (all_tasks ex'.tasks) (task ∷ all_tasks ex.tasks)) (with_tasks ex o)
      set_tasks none h = tt
      set_tasks (some qs) h = h

module _ {A : Type 0} where
  pub append_left_comm : (a b c : List A) → Perm (a ++ (b ++ c)) (b ++ (a ++ c))
  append_left_comm a b c =
      rw (← append_assoc a b c, ← append_assoc b a c) (Perm.append_right c (perm_append_comm a b))

  -- Two parts of a run, each of which accounts for what it sends.
  pub both_account :
      (s sent left n new before after : List A)
      → Perm (s ++ after) (n ++ before)
      → Perm (sent ++ left) (new ++ after)
      → Perm ((s ++ sent) ++ left) ((n ++ new) ++ before)
  both_account s sent left n new before after first rest =
      rw (append_assoc s sent left, append_assoc n new before)
        (Perm.trans (Perm.append_left s rest) (
          Perm.trans (append_left_comm s new after)
            (Perm.trans (Perm.append_left new first) (append_left_comm new n before))))
