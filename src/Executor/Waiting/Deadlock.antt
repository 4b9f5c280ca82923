-- ===== src/Executor/Waiting/Deadlock.antt =====
-- imputio/src/executor/handle.rs and `blocking_await` of imputio/src/task/mod.rs: a future that
-- waits for a task of its own executor waits for ever.
use toy_io.Common.{
  ℕ, ◌<◌, ◌≡◌, ◌≢◌, refl, sym, ap, ◌∙◌, Bool, true, false, Option, none, some, List, ◌∷◌, get_elem?,
  get_elem?-set_same, get_elem?-set_other, if◌then◌else◌,
}
use toy_io.Task.{ImputioTask}
use toy_io.Task.Handle.{Reply, Received}
use toy_io.Io.{IoOp}
use toy_io.Io.PollHandle
use toy_io.Executor.Protocol.{Transaction}
use toy_io.Executor.{get_task}
use toy_io.Executor.Waiting.Stuck.{IsStuck}
use toy_io.Executor.Waiting.Lacks.{Lacks}
use toy_io.Executor.Waiting.{
  Polled, waits, Spawned, Thread, System, put, with_future, settle, poll_from, handle_from,
  poll_task_at, receive_from, advance_from, advance_thread, advance, end_unless, end_thread,
  check_flag,
}
use toy_io.Executor.Waiting.Runs.{Reach}
use toy_io.Executor.Waiting.Steps.{Reach-IsStuck}

module _ {E F T N Operation R : Type 0} (io fairness : Bool) (poll_future : E → F → Polled F T)
    (go_on : E → F → Received T → Polled F T) (send : N → IoOp Operation → Option N) where
  -- The thread `i` after a poll of the task `t` that waits for the handle `k`.
  abbrev after_poll :
      Thread F T N Operation R
      → List (Transaction (Spawned F) Operation R)
      → List (List (ImputioTask (Spawned F)))
      → ℕ × ImputioTask (Spawned F)
      → Thread F T N Operation R
  after_poll th msgs rest w =
      let n = th.executor.poll_handle in
      record {
        executor = record th.executor {
          tasks = rest;
          poll_handle = if io then (PollHandle.poll send n).0 else n;
        };
        messages = msgs;
        waiting = some w;
        ended = th.ended;
      }

  -- The poll, up to where it waits.
  polled :
      (env : E) (coin : Bool) (s : System F T N Operation R) (i k : ℕ)
      (th : Thread F T N Operation R) (msgs : List (Transaction (Spawned F) Operation R))
      (rest : List (List (ImputioTask (Spawned F)))) (t : ImputioTask (Spawned F)) (f : F)
      → th.waiting ≡ none
      → th.messages ≡ Transaction.poll ∷ msgs
      → get_task fairness coin th.executor.tasks ≡ (rest, some t)
      → poll_future env t.future.1 ≡ waits k f
      → advance_from io fairness poll_future go_on send env coin s i th th.waiting
        ≡ some (put s i (after_poll th msgs rest (k, with_future t f)))
  unfolding handle_from poll_from settle
  polled env coin s i k th msgs rest t f idle m taken p =
      ap (advance_from io fairness poll_future go_on send env coin s i th) idle
      ∙ ap (receive_from io fairness poll_future go_on send env coin s i th) m
      ∙ ap
          (λ r.
            let n = th.executor.poll_handle in
            let n' = if io then (PollHandle.poll send n).0 else n in
            poll_task_at io fairness poll_future go_on send env s i
              (record th {
                messages = msgs;
                executor = record th.executor { tasks = r.0; poll_handle = n' };
              })
              r.1)
          taken
      ∙ ap
          (settle s i
            (record (after_poll th msgs rest (k, with_future t f)) { waiting = th.waiting }) t)
          p

  -- It does not come to the end of its turn.
  stays :
      (flag : Bool) (s : System F T N Operation R) (i : ℕ) (th th' : Thread F T N Operation R)
      (w : ℕ × ImputioTask (Spawned F))
      → get_elem? s.threads i ≡ some th
      → th'.waiting ≡ some w
      → check_flag flag i (some (put s i th')) ≡ some (put s i th')
  stays false s i th th' w at e = refl
  stays true s i th th' w at e =
      ap (λ o. some (end_thread (put s i th') i o)) (get_elem?-set_same s.threads i th th' at)
      ∙ ap (λ x. some (end_unless (put s i th') i th' x)) e

  advance-waits :
      (env : E) (coin flag : Bool) (s : System F T N Operation R) (i k : ℕ)
      (th : Thread F T N Operation R) (msgs : List (Transaction (Spawned F) Operation R))
      (rest : List (List (ImputioTask (Spawned F)))) (t : ImputioTask (Spawned F)) (f : F)
      → get_elem? s.threads i ≡ some th
      → th.ended ≡ false
      → th.waiting ≡ none
      → th.messages ≡ Transaction.poll ∷ msgs
      → get_task fairness coin th.executor.tasks ≡ (rest, some t)
      → poll_future env t.future.1 ≡ waits k f
      → advance io fairness poll_future go_on send env coin flag s i
        ≡ some (put s i (after_poll th msgs rest (k, with_future t f)))
  unfolding advance handle_from poll_from settle
  advance-waits env coin flag s i k th msgs rest t f at runs idle m taken p =
      ap (advance_thread io fairness poll_future go_on send env coin flag s i) at
      ∙ ap
          (λ b.
            if b
            then some s
            else check_flag flag i
                (advance_from io fairness poll_future go_on send env coin s i th th.waiting))
          runs
      ∙ ap (check_flag flag i) (polled env coin s i k th msgs rest t f idle m taken p)
      ∙ stays flag s i th (after_poll th msgs rest (k, with_future t f)) (k, with_future t f) at
          refl

  -- A wait for a task of the same executor never ends. If the task that a running executor polls
  -- waits for a handle, whose value is not there yet and whose task is with none of the other
  -- executors, then after this poll, whatever the threads do, whatever is sent to them and
  -- whichever shutdown flags are set, the thread of the executor stays in this poll, and the value
  -- is never sent.
  pub wait_never_ends :
      (env : E) (coin flag : Bool) (s : System F T N Operation R) (i k : ℕ)
      (th : Thread F T N Operation R) (msgs : List (Transaction (Spawned F) Operation R))
      (rest : List (List (ImputioTask (Spawned F)))) (t : ImputioTask (Spawned F)) (f : F)
      → get_elem? s.threads i ≡ some th
      → th.ended ≡ false
      → th.waiting ≡ none
      → th.messages ≡ Transaction.poll ∷ msgs
      → get_task fairness coin th.executor.tasks ≡ (rest, some t)
      → poll_future env t.future.1 ≡ waits k f
      → k < s.fresh
      → s.replies k ≡ Reply.open_yet
      → ((j : ℕ) (th' : Thread F T N Operation R)
          → j ≢ i
          → get_elem? s.threads j ≡ some th'
          → Lacks k th')
      → (s' : System F T N Operation R) × (advance io fairness poll_future go_on send env coin flag
            s i
          ≡ some s')
        × ((s'' : System F T N Operation R)
            → Reach io fairness poll_future go_on send s' s''
            → (s''.replies k ≡ Reply.open_yet)
              × (th'' : Thread F T N Operation R) × (get_elem? s''.threads i ≡ some th'')
              × (th''.waiting ≡ some (k, with_future t f)))
  wait_never_ends env coin flag s i k th msgs rest t f at runs idle m taken p old silent others =
      let th' = after_poll th msgs rest (k, with_future t f) in
      let v : IsStuck i k (with_future t f) (put s i th') = record {
        old = old;
        silent = silent;
        others = λ j x n e.
            others j x n (sym (get_elem?-set_other s.threads i j th' (λ z. n (sym z))) ∙ e);
        blocked = (th', get_elem?-set_same s.threads i th th' at, refl);
      } in
      (
        put s i th',
        advance-waits env coin flag s i k th msgs rest t f at runs idle m taken p,
        λ s'' r.
            let w = Reach-IsStuck io fairness poll_future go_on send i k (with_future t f) v r in
            let (th'', e, q) = w.blocked in (w.silent, th'', e, q),
      )
