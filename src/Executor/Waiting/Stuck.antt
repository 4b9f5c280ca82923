-- ===== src/Executor/Waiting/Stuck.antt =====
-- imputio/src/executor/handle.rs and `blocking_await` of imputio/src/task/mod.rs: a thread that
-- waits for a task that no other thread has.
use native.Mathlib.Decide.{ℕ_discrete}
use mathlib.Core.Option.{some-injective}
use toy_io.Common.{
  Bool, true, false, Bool-cases, Option-cases, inl, inr, if◌then◌else◌, ℕ, ◌<◌, ◌≡◌, ◌≢◌, refl, sym,
  ap, subst, ◌∙◌, Option, none, some, OnSome, List, [], ◌∷◌, ◌++◌, arith, get_elem?,
  get_elem?-set_same, get_elem?-set_other, set,
}
use toy_io.Task.{ready, pending, ImputioTask}
use toy_io.Task.Handle.{Reply}
use toy_io.Executor.Protocol.{Transaction}
use toy_io.Executor.{Executor, spawn}
use toy_io.Executor.Waiting.Lacks
use toy_io.Executor.Waiting.Lacks.{Lacks, IsOther, QueuesOther}
use toy_io.Executor.Waiting.{
  Polled, returns, waits, Spawned, Thread, System, put, put_executor, with_future, update, settle,
  send_to, send_at, end_unless, end_thread, check_flag,
}

module _ {F T N Operation R : Type 0} (i k : ℕ) (task : ImputioTask (Spawned F)) where
  -- The thread `i` waits, with this task, for the handle `k`. The channel of that handle is empty,
  -- and no other thread has its task.
  pub record IsStuck (s : System F T N Operation R) : Type 0 where
    pub old : k < s.fresh
    pub silent : s.replies k ≡ Reply.open_yet
    pub others :
        (j : ℕ) (th : Thread F T N Operation R)
        → j ≢ i
        → get_elem? s.threads j ≡ some th
        → Lacks k th
    pub blocked :
        (th : Thread F T N Operation R) × (get_elem? s.threads i ≡ some th)
        × (th.waiting ≡ some (k, task))

  pub update-IsStuck :
      (s : System F T N Operation R) (id : ℕ) (r : Reply T)
      → id ≢ k
      → IsStuck s
      → IsStuck (record s { replies = update s.replies id r })
  update-IsStuck s id r ne v = record {
    old = v.old;
    silent = ground (arith, v.silent);
    others = v.others;
    blocked = v.blocked;
  }

  pub put-IsStuck :
      (s : System F T N Operation R) (j : ℕ) (old new : Thread F T N Operation R)
      → j ≢ i
      → get_elem? s.threads j ≡ some old
      → Lacks k new
      → IsStuck s
      → IsStuck (put s j new)
  put-IsStuck s j old new ne e l v = record {
    old = v.old;
    silent = v.silent;
    others = λ x th n. elim (ℕ_discrete j x) [
      | yes same ↦ λ f.
          subst (Lacks k)
            (some-injective new th (
              sym (get_elem?-set_same s.threads j old new e)
              ∙ ap (get_elem? (set s.threads j new)) same
              ∙ f))
            l
      | no other ↦ λ f. v.others x th n (sym (get_elem?-set_other s.threads j x new other) ∙ f)
    ];
    blocked = let (th, at, w) = v.blocked in (th, get_elem?-set_other s.threads j i new ne ∙ at, w);
  }

  pub put_executor-IsStuck :
      (s : System F T N Operation R) (j : ℕ) (old th : Thread F T N Operation R)
      (o : Option (Executor (Spawned F) N))
      → j ≢ i
      → get_elem? s.threads j ≡ some old
      → Lacks.MessagesOther k th.messages
      → OnSome (λ ex. QueuesOther k ex.tasks) o
      → IsStuck s
      → OnSome IsStuck (put_executor s j th o)
  put_executor-IsStuck s j old th none ne e ms q v = tt
  put_executor-IsStuck s j old th (some ex) ne e ms q v =
      put-IsStuck s j old (record th { executor = ex; waiting = none }) ne e
        (record { queues = q; messages = ms; waiting = tt }) v

  pub settle-IsStuck :
      (s : System F T N Operation R) (j : ℕ) (old th : Thread F T N Operation R)
      (t : ImputioTask (Spawned F)) (p : Polled F T)
      → j ≢ i
      → get_elem? s.threads j ≡ some old
      → QueuesOther k th.executor.tasks
      → Lacks.MessagesOther k th.messages
      → IsOther k t
      → IsStuck s
      → OnSome IsStuck (settle s j th t p)
  unfolding settle
  settle-IsStuck s j old th t (returns f (ready val)) ne e q ms o v =
      put-IsStuck (record s { replies = update s.replies t.future.0 (Reply.sent val) }) j old
        (record th { waiting = none }) ne e (record { queues = q; messages = ms; waiting = tt })
        (update-IsStuck s t.future.0 (Reply.sent val) o v)
  settle-IsStuck s j old th t (returns f pending) ne e q ms o v =
      put_executor-IsStuck s j old th (spawn th.executor (with_future t f)) ne e ms
        (Lacks.spawn-Other k th.executor (with_future t f) q o) v
  settle-IsStuck s j old th t (waits x f) ne e q ms o v =
      put-IsStuck s j old (record th { waiting = some (x, with_future t f) }) ne e
        (record { queues = q; messages = ms; waiting = o }) v

  -- More messages for the thread that waits.
  pub put_self-IsStuck :
      (s : System F T N Operation R) (th : Thread F T N Operation R)
      (msgs : List (Transaction (Spawned F) Operation R))
      → get_elem? s.threads i ≡ some th
      → IsStuck s
      → IsStuck (put s i (record th { messages = msgs }))
  put_self-IsStuck s th msgs e v = record {
    old = v.old;
    silent = v.silent;
    others = λ x t n f. v.others x t n (
        sym (get_elem?-set_other s.threads i x (record th { messages = msgs }) (λ z. n (sym z)))
        ∙ f);
    blocked =
        let (t, at, w) = v.blocked in
        (
          record th { messages = msgs },
          get_elem?-set_same s.threads i th (record th { messages = msgs }) e,
          ap (λ x. x.waiting) (some-injective th t (sym e ∙ at)) ∙ w,
        );
  }

  send_on-IsStuck :
      (s : System F T N Operation R) (j : ℕ) (th : Thread F T N Operation R)
      (msg : Transaction (Spawned F) Operation R)
      → Lacks.MessageOther k msg
      → get_elem? s.threads j ≡ some th
      → IsStuck s
      → IsStuck (put s j (record th { messages = th.messages ++ msg ∷ [] }))
  send_on-IsStuck s j th msg o e v = elim (ℕ_discrete j i) [
    | no ne ↦
        let l = v.others j th ne e in
        put-IsStuck s j th (record th { messages = th.messages ++ msg ∷ [] }) ne e
          (record {
            queues = l.queues;
            messages = Lacks.MessagesOther-append k th.messages msg l.messages o;
            waiting = l.waiting;
          })
          v
    | yes same ↦
        subst (λ x. IsStuck (put s x (record th { messages = th.messages ++ msg ∷ [] }))) (sym same)
          (put_self-IsStuck s th (th.messages ++ msg ∷ []) (ap (get_elem? s.threads) (sym same) ∙ e)
            v)
  ]

  -- A message to any thread that does not bring it the task.
  pub send_at-IsStuck :
      (s : System F T N Operation R) (j : ℕ) (msg : Transaction (Spawned F) Operation R)
      → Lacks.MessageOther k msg
      → IsStuck s
      → IsStuck (send_at s j msg)
  unfolding send_at
  send_at-IsStuck s j msg o v = to_thread (get_elem? s.threads j) refl
    where
      to_thread :
          (th : Option (Thread F T N Operation R))
          → get_elem? s.threads j ≡ th
          → IsStuck (send_to s j msg th)
      to_thread none e = v
      to_thread (some th) e = elim (Bool-cases th.ended) [
        | inl gone ↦
            subst
              (λ b.
                IsStuck
                  (if b then s else put s j (record th { messages = th.messages ++ msg ∷ [] })))
              (sym gone) v
        | inr runs ↦
            subst
              (λ b.
                IsStuck
                  (if b then s else put s j (record th { messages = th.messages ++ msg ∷ [] })))
              (sym runs) (send_on-IsStuck s j th msg o e v)
      ]

  -- The end of a turn of another thread.
  pub check_flag-IsStuck :
      (flag : Bool) (j : ℕ) (o : Option (System F T N Operation R))
      → j ≢ i
      → OnSome IsStuck o
      → OnSome IsStuck (check_flag flag j o)
  check_flag-IsStuck false j o ne v = v
  check_flag-IsStuck true j none ne v = tt
  check_flag-IsStuck true j (some s) ne v = of_thread (get_elem? s.threads j) refl
    where
      of_thread :
          (th : Option (Thread F T N Operation R))
          → get_elem? s.threads j ≡ th
          → IsStuck (end_thread s j th)
      of_thread none e = v
      of_thread (some th) e =
          let l = v.others j th ne e in
          elim (Option-cases th.waiting) [
            | inl w ↦
                subst (λ x. IsStuck (end_unless s j th x)) (sym w)
                  (put-IsStuck s j th (record th { ended = true }) ne e
                    (record { queues = l.queues; messages = l.messages; waiting = l.waiting }) v)
            | inr (x, w) ↦ subst (λ y. IsStuck (end_unless s j th y)) (sym w) v
          ]
