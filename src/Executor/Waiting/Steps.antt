-- ===== src/Executor/Waiting/Steps.antt =====
-- imputio/src/executor/handle.rs and `blocking_await` of imputio/src/task/mod.rs: whatever happens
-- next, a thread that waits for a task that no other thread has goes on waiting.
use native.Mathlib.Decide.{ℕ_discrete}
use toy_io.Common.{
  ℕ, suc, ◌≡◌, ◌≢◌, refl, sym, ap, subst, ◌∙◌, Bool, true, false, Option, none, some, OnSome, List,
  [], ◌∷◌, arith, get_elem?, if◌then◌else◌,
}
use toy_io.Task.{ImputioTask}
use toy_io.Task.Handle.{Reply, Received, blocking_await}
use toy_io.Io.{IoOp}
use toy_io.Io.PollHandle
use toy_io.Executor.Protocol.{Transaction}
use toy_io.Executor.{get_task, spawn, push_to_poller}
use toy_io.Executor.Every.{get_task-Of}
use toy_io.Executor.Waiting.Lacks
use toy_io.Executor.Waiting.Stuck.{
  IsStuck, put-IsStuck, put_executor-IsStuck, settle-IsStuck, send_at-IsStuck, update-IsStuck,
  check_flag-IsStuck,
}
use toy_io.Executor.Waiting.Lacks.{Lacks, IsOther, QueuesOther}
use toy_io.Executor.Waiting.{
  Polled, Spawned, Thread, System, update, spawn_at, poll_from, handle_from, poll_task_at,
  receive_from, go_on_with, advance_from, advance_thread, advance, end_unless, end_thread,
  check_flag,
}
use toy_io.Executor.Waiting.Runs.{Step, advances, spawns, polls, submits, Reach, here, next}

module _ {E F T N Operation R : Type 0} (io fairness : Bool) (poll_future : E → F → Polled F T)
    (go_on : E → F → Received T → Polled F T) (send : N → IoOp Operation → Option N) (i k : ℕ)
    (task : ImputioTask (Spawned F)) where
  if-Of :
      (ended : Bool) (s : System F T N Operation R) (o : Option (System F T N Operation R))
      → OnSome (IsStuck i k task) o
      → IsStuck i k task s
      → OnSome (IsStuck i k task) (if ended then some s else o)
  if-Of true s o h v = v
  if-Of false s o h v = h

  poll_task_at-IsStuck :
      (env : E) (s : System F T N Operation R) (j : ℕ) (old th : Thread F T N Operation R)
      (t : Option (ImputioTask (Spawned F)))
      → j ≢ i
      → get_elem? s.threads j ≡ some old
      → Lacks k th
      → OnSome (IsOther k) t
      → IsStuck i k task s
      → OnSome (IsStuck i k task) (poll_task_at io fairness poll_future go_on send env s j th t)
  poll_task_at-IsStuck env s j old th none ne e l o v = put-IsStuck i k task s j old th ne e l v
  poll_task_at-IsStuck env s j old th (some t) ne e l o v =
      settle-IsStuck i k task s j old th t (poll_future env t.future.1) ne e l.queues l.messages o v

  handle_from-IsStuck :
      (env : E) (coin : Bool) (s : System F T N Operation R) (j : ℕ)
      (old th : Thread F T N Operation R) (msg : Transaction (Spawned F) Operation R)
      → j ≢ i
      → get_elem? s.threads j ≡ some old
      → Lacks k th
      → Lacks.MessageOther k msg
      → IsStuck i k task s
      → OnSome
          (IsStuck i k task)
          (handle_from io fairness poll_future go_on send env coin s j th msg)
  unfolding handle_from poll_from push_to_poller
  handle_from-IsStuck env coin s j old th (Transaction.spawn t) ne e l o v =
      put_executor-IsStuck i k task s j old th (spawn th.executor t) ne e l.messages
        (Lacks.spawn-Other k th.executor t l.queues o) v
  handle_from-IsStuck env coin s j old th Transaction.poll ne e l o v =
      let n = th.executor.poll_handle in
      let n' = if io then (PollHandle.poll send n).0 else n in
      let (tasks, t) = get_task fairness coin th.executor.tasks in
      let (rest, taken) = get_task-Of (IsOther k) fairness coin th.executor.tasks l.queues in
      let ex = record th.executor { tasks = tasks; poll_handle = n' } in
      poll_task_at-IsStuck env s j old (record th { executor = ex }) t ne e
        (record { queues = rest; messages = l.messages; waiting = l.waiting }) taken v
  handle_from-IsStuck env coin s j old th (Transaction.submit_io_op op reply) ne e l o v =
      put_executor-IsStuck i k task s j old th (some (push_to_poller send th.executor op).0) ne e
        l.messages l.queues v

  receive_from-IsStuck :
      (env : E) (coin : Bool) (s : System F T N Operation R) (j : ℕ) (th : Thread F T N Operation R)
      (msgs : List (Transaction (Spawned F) Operation R))
      → j ≢ i
      → get_elem? s.threads j ≡ some th
      → Lacks k th
      → Lacks.MessagesOther k msgs
      → IsStuck i k task s
      → OnSome
          (IsStuck i k task)
          (receive_from io fairness poll_future go_on send env coin s j th msgs)
  receive_from-IsStuck env coin s j th [] ne e l o v = v
  receive_from-IsStuck env coin s j th (msg ∷ msgs) ne e l o v =
      handle_from-IsStuck env coin s j th (record th { messages = msgs }) msg ne e
        (record { queues = l.queues; messages = o.1; waiting = l.waiting }) o.0 v

  go_on_with-IsStuck :
      (env : E) (s : System F T N Operation R) (j : ℕ) (th : Thread F T N Operation R)
      (t : ImputioTask (Spawned F)) (r : Option (Received T))
      → j ≢ i
      → get_elem? s.threads j ≡ some th
      → Lacks k th
      → IsOther k t
      → IsStuck i k task s
      → OnSome (IsStuck i k task) (go_on_with io fairness poll_future go_on send env s j th t r)
  go_on_with-IsStuck env s j th t none ne e l o v = v
  go_on_with-IsStuck env s j th t (some r) ne e l o v =
      settle-IsStuck i k task s j th th t (go_on env t.future.1 r) ne e l.queues l.messages o v

  advance_other-IsStuck :
      (env : E) (coin : Bool) (s : System F T N Operation R) (j : ℕ) (th : Thread F T N Operation R)
      (w : Option (ℕ × ImputioTask (Spawned F)))
      → j ≢ i
      → get_elem? s.threads j ≡ some th
      → Lacks k th
      → Lacks.WaitingOther k w
      → IsStuck i k task s
      → OnSome
          (IsStuck i k task)
          (advance_from io fairness poll_future go_on send env coin s j th w)
  advance_other-IsStuck env coin s j th none ne e l o v =
      receive_from-IsStuck env coin s j th th.messages ne e l l.messages v
  advance_other-IsStuck env coin s j th (some (x, t)) ne e l o v =
      go_on_with-IsStuck env s j th t (blocking_await (record { receiver = s.replies x })) ne e l o
        v

  -- The thread that waits does nothing, whatever its flag is.
  waits_still :
      (flag ended : Bool) (s : System F T N Operation R) (th : Thread F T N Operation R)
      → get_elem? s.threads i ≡ some th
      → th.waiting ≡ some (k, task)
      → (if ended then some s else check_flag flag i (some s)) ≡ some s
  waits_still flag true s th at w = refl
  waits_still false false s th at w = refl
  waits_still true false s th at w =
      ap (λ o. some (end_thread s i o)) at ∙ ap (λ x. some (end_unless s i th x)) w

  advance_self :
      (env : E) (coin flag : Bool) (s : System F T N Operation R)
      → IsStuck i k task s
      → advance io fairness poll_future go_on send env coin flag s i ≡ some s
  unfolding advance blocking_await
  advance_self env coin flag s v =
      let (th, at, w) = v.blocked in
      let rest = λ (o : Option (System F T N Operation R)).
        if th.ended then some s else check_flag flag i o in
      ap (advance_thread io fairness poll_future go_on send env coin flag s i) at
      ∙ ap (λ x. rest (advance_from io fairness poll_future go_on send env coin s i th x)) w
      ∙ ap
          (λ r. rest (
            go_on_with io fairness poll_future go_on send env s i th task
              (blocking_await (record { receiver = r }))))
          v.silent
      ∙ waits_still flag th.ended s th at w

  advance-IsStuck :
      (env : E) (coin flag : Bool) (s : System F T N Operation R) (j : ℕ)
      → IsStuck i k task s
      → OnSome (IsStuck i k task) (advance io fairness poll_future go_on send env coin flag s j)
  unfolding advance
  advance-IsStuck env coin flag s j v = elim (ℕ_discrete j i) [
    | yes same ↦
        subst
          (λ x.
            OnSome (IsStuck i k task)
              (advance io fairness poll_future go_on send env coin flag s x))
          (sym same) (subst (OnSome (IsStuck i k task)) (sym (advance_self env coin flag s v)) v)
    | no ne ↦ of_thread (get_elem? s.threads j) ne refl
  ]
    where
      of_thread :
          (th : Option (Thread F T N Operation R))
          → j ≢ i
          → get_elem? s.threads j ≡ th
          → OnSome
              (IsStuck i k task)
              (advance_thread io fairness poll_future go_on send env coin flag s j th)
      of_thread none ne e = v
      of_thread (some th) ne e =
          let l = v.others j th ne e in
          let o = advance_from io fairness poll_future go_on send env coin s j th th.waiting in
          if-Of th.ended s (check_flag flag j o)
            (check_flag-IsStuck i k task flag j o ne
              (advance_other-IsStuck env coin s j th th.waiting ne e l l.waiting v))
            v

  Step-IsStuck :
      {s s' : System F T N Operation R}
      → Step io fairness poll_future go_on send s s'
      → IsStuck i k task s
      → IsStuck i k task s'
  unfolding spawn_at
  Step-IsStuck {s} (advances env coin flag j e) v =
      subst (OnSome (IsStuck i k task)) e (advance-IsStuck env coin flag s j v)
  Step-IsStuck {s} (spawns j future priority e) v =
      let s₁ = record s {
        replies = update s.replies s.fresh Reply.open_yet;
        fresh = suc s.fresh;
      } in
      let newer : s.fresh ≢ k = λ x. absurd (omega (arith, x, v.old)) in
      let v₁ : IsStuck i k task s₁ =
        let w = update-IsStuck i k task s s.fresh Reply.open_yet newer v in
        record {
          old = omega (arith, v.old);
          silent = w.silent;
          others = w.others;
          blocked = w.blocked;
        } in
      subst (IsStuck i k task) (sym e) (
        send_at-IsStuck i k task s₁ j
          (Transaction.spawn (record { future = (s.fresh, future); priority = priority })) newer v₁)
  Step-IsStuck {s} (polls j e) v =
      subst (IsStuck i k task) (sym e) (send_at-IsStuck i k task s j Transaction.poll tt v)
  Step-IsStuck {s} (submits j op reply e) v =
      subst (IsStuck i k task) (sym e)
        (send_at-IsStuck i k task s j (Transaction.submit_io_op op reply) tt v)

  pub Reach-IsStuck :
      {s s' : System F T N Operation R}
      → IsStuck i k task s
      → Reach io fairness poll_future go_on send s s'
      → IsStuck i k task s'
  Reach-IsStuck v here = v
  Reach-IsStuck v (next r st) = Step-IsStuck st (Reach-IsStuck v r)
