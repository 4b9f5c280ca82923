-- ===== src/Executor/Waiting/Calm.antt =====
-- imputio/src/executor/handle.rs: what one poll does to an executor whose futures never wait for a
-- handle, and which has the task of a given one.
use native.Mathlib.Decide.{ℕ_discrete}
use toy_io.Common.{
  false, ℕ, suc, ◌<◌, ◌≤◌, ◌≡◌, ◌≢◌, refl, sym, ap, subst, ◌∙◌, Option, none, some, OnSome, List,
  [], ◌∷◌, ◌++◌, arith, get_elem?, get_elem?-set_same, get_elem?-set_other,
}
use toy_io.Task.{ready, pending, ImputioTask, priority_index}
use toy_io.Task.Handle.{Reply}
use toy_io.Executor.Protocol.{Transaction}
use toy_io.Executor.{Executor}
use toy_io.Executor.Queues.{empties, IsValid, spawn-IsValid}
use toy_io.Executor.Priorities.{spawn-empties}
use toy_io.Executor.Progress.{work_of, total_work, work_of-append, total_work-empties}
use toy_io.Executor.Every.{QueuesOf, AllOf-append, AllOf-last, QueuesOf-at, QueuesOf-front}
use toy_io.Executor.Waiting.Lacks.{IsOther, QueuesOther}
use toy_io.Executor.Waiting.{
  Polled, returns, waits, Spawned, Thread, System, put, put_executor, with_future, update, settle,
}

-- What a poll does of a future that never waits: it gives the value of the future, or what is left
-- of the future has less work and the same value.
pub data CalmStep {F T : Type 0} (Calm : F → Type 0) (work : F → ℕ) (gives : F → T) (f : F)
    : Polled F T → Type 0 where
  finishes : {f' : F} {v : T} → v ≡ gives f → CalmStep Calm work gives f (returns f' (ready v))
  goes_on :
      {f' : F}
      → Calm f'
      → work f' < work f
      → gives f' ≡ gives f
      → CalmStep Calm work gives f (returns f' pending)

-- A thread that does nothing and has no messages.
abbrev pub idle : {F T N Operation R : Type 0} → Executor (Spawned F) N → Thread F T N Operation R
idle ex = record { executor = ex; messages = []; waiting = none; ended = false }

-- The same thread with the message to poll.
abbrev pub told : {F T N Operation R : Type 0} → Executor (Spawned F) N → Thread F T N Operation R
told ex = record { executor = ex; messages = Transaction.poll ∷ []; waiting = none; ended = false }

module _ {F T : Type 0} (Calm : F → Type 0) (gives : F → T) (k : ℕ) (val : T) where
  -- The future never waits, and if the handle `k` is that of the task, its value is `val`.
  abbrev pub IsCalm : ImputioTask (Spawned F) → Type 0
  IsCalm t = Calm t.future.1 × (t.future.0 ≡ k → gives t.future.1 ≡ val)

abbrev pub spawned_work : {F : Type 0} → (F → ℕ) → Spawned F → ℕ
spawned_work work f = work f.1

module _ {T : Type 0} (k : ℕ) (val : T) where
  finished-reply :
      (replies : ℕ → Reply T) (id : ℕ) (v : T)
      → (id ≡ k → v ≡ val)
      → (id ≢ k → replies k ≡ Reply.sent val)
      → update replies id (Reply.sent v) k ≡ Reply.sent val
  finished-reply replies id v h o = elim (ℕ_discrete id k) [
    | yes e ↦ ground (arith, h e)
    | no ne ↦ ground (arith, o ne)
  ]

module _ {F T N Operation R : Type 0} (Calm : F → Type 0) (work : F → ℕ) (gives : F → T) (j k : ℕ)
    (val : T) where
  -- The thread `j` is idle, its futures never wait and need at most `n` more polls, and the task of
  -- the handle `k` is among them, unless its value is sent.
  pub record IsWorking (n : ℕ) (s : System F T N Operation R) (ex : Executor (Spawned F) N)
      : Type 0 where
    pub found : get_elem? s.threads j ≡ some (idle ex)
    pub valid : IsValid ex
    pub calm : QueuesOf (IsCalm Calm gives k val) ex.tasks
    pub left : total_work (spawned_work work) ex.tasks ≤ n
    pub arrived : QueuesOther k ex.tasks → s.replies k ≡ Reply.sent val

  -- Only the thread `j` has changed.
  unfoldable pub Others : System F T N Operation R → System F T N Operation R → Type 0
  Others s s' = (x : ℕ) → j ≢ x → get_elem? s'.threads x ≡ get_elem? s.threads x

  abbrev pub Goes : ℕ → System F T N Operation R → Option (System F T N Operation R) → Type 0
  Goes n s r =
      (s' : System F T N Operation R) × (ex : Executor (Spawned F) N) × (r ≡ some s')
      × IsWorking n s' ex
      × Others s s'

  pub settle-Goes :
      (n : ℕ) (s : System F T N Operation R) (old : Thread F T N Operation R)
      (ex : Executor (Spawned F) N) (l : ℕ) (t : ImputioTask (Spawned F))
      (q : List (ImputioTask (Spawned F))) (rest : List (List (ImputioTask (Spawned F))))
      (p : Polled F T)
      → get_elem? s.threads j ≡ some old
      → ex.tasks ≡ empties l ++ q ∷ rest
      → IsValid ex
      → priority_index t.priority ≡ l
      → CalmStep Calm work gives t.future.1 p
      → QueuesOf (IsCalm Calm gives k val) (empties l ++ (t ∷ q) ∷ rest)
      → total_work (spawned_work work) (empties l ++ (t ∷ q) ∷ rest) ≤ suc n
      → (QueuesOther k (empties l ++ (t ∷ q) ∷ rest) → s.replies k ≡ Reply.sent val)
      → Goes n s (settle s j (idle ex) t p)
  unfolding settle Others work_of
  settle-Goes n s old ex l t q rest (returns f (ready v)) e x valid level (finishes same) calm left
        arrived =
      (
        put (record s { replies = update s.replies t.future.0 (Reply.sent v) }) j (idle ex),
        ex,
        refl,
        record {
          found = get_elem?-set_same s.threads j old (idle ex) e;
          valid = valid;
          calm = rw x (QueuesOf-at (IsCalm Calm gives k val) l (t ∷ q) q rest (λ h. h.1) calm);
          left = rw x (
              omega (
                arith,
                total_work-empties (spawned_work work) l q rest,
                total_work-empties (spawned_work work) l (t ∷ q) rest,
              ));
          arrived = λ o.
              finished-reply k val s.replies t.future.0 v
                (λ at_k. same ∙ (QueuesOf-front (IsCalm Calm gives k val) l t q rest calm).1 at_k)
                (λ ne. arrived (
                  QueuesOf-at (IsOther k) l q (t ∷ q) rest (λ h. (ne, h))
                    (subst (QueuesOther k) x o)));
        },
        λ y ne. get_elem?-set_other s.threads j y (idle ex) ne,
      )
  settle-Goes n s old ex l t q rest (returns f pending) e x valid level (goes_on c less same) calm
        left arrived =
      let t' = with_future t f in
      let ex' = record ex { tasks = empties l ++ (q ++ t' ∷ []) ∷ rest } in
      let spawned = spawn-empties ex l t' q rest x level in
      (
        put s j (idle ex'),
        ex',
        ap (put_executor s j (idle ex)) spawned,
        record {
          found = get_elem?-set_same s.threads j old (idle ex') e;
          valid =
              let (ex'', r, v) = spawn-IsValid ex t' valid in
              subst (OnSome IsValid) (sym r ∙ spawned) v;
          calm =
              QueuesOf-at (IsCalm Calm gives k val) l (t ∷ q) (q ++ t' ∷ []) rest
                (λ h.
                  AllOf-append (IsCalm Calm gives k val) q t' h.1 (c, λ at_k. same ∙ h.0.1 at_k))
                calm;
          left = omega (
            arith,
            less,
            work_of-append (spawned_work work) q (t' ∷ []),
            total_work-empties (spawned_work work) l (q ++ t' ∷ []) rest,
            total_work-empties (spawned_work work) l (t ∷ q) rest,
          );
          arrived = λ o. arrived (
              QueuesOf-at (IsOther k) l (q ++ t' ∷ []) (t ∷ q) rest
                (λ h. let (a, b) = AllOf-last (IsOther k) q t' h in (b, a)) o);
        },
        λ y ne. get_elem?-set_other s.threads j y (idle ex') ne,
      )
  settle-Goes n s old ex l t q rest (waits h f) e x valid level c calm left arrived = elim c [ ]
