-- ===== src/Executor/Waiting/Arrives.antt =====
-- imputio/src/executor/handle.rs and `blocking_await` of imputio/src/task/mod.rs: a wait for a task
-- of another executor, which is polled until the task is done.
use toy_io.Common.{
  ℕ, suc, ◌≤◌, ◌≡◌, ◌≢◌, refl, sym, ap, subst, ◌∙◌, Bool, false, Option, none, some, List, [], ◌∷◌,
  ◌++◌, arith, length, get_elem?, get_elem?-set_same, get_elem?-set_other, inl, inr, if◌then◌else◌,
}
use toy_io.Task.{ImputioTask}
use toy_io.Task.Handle.{Reply, Received, blocking_await}
use toy_io.Io.{IoOp}
use toy_io.Io.PollHandle
use toy_io.Executor.Protocol.{Transaction}
use toy_io.Executor.{Executor, get_task}
use toy_io.Executor.Queues.{empties, IsValid, IsLevelled, find_pop-Pops, get_task-IsLevelled}
use toy_io.Executor.Priorities.{IsLevelled-at}
use toy_io.Executor.Progress.{total_work, total_work-zero, total_work-none}
use toy_io.Executor.Every.{QueuesOf, QueuesOf-front, QueuesOf-none}
use toy_io.Executor.Waiting.Lacks.{IsOther, QueuesOther}
use toy_io.Executor.Waiting.{
  Polled, Spawned, Thread, System, put, settle, send_at, poll_from, handle_from, poll_task_at,
  advance, check_flag,
}
use toy_io.Executor.Waiting.Calm.{
  CalmStep, idle, told, IsCalm, spawned_work, IsWorking, Others, Goes, settle-Goes,
}

module _ {E F T N Operation R : Type 0} (io : Bool) (poll_future : E → F → Polled F T)
    (go_on : E → F → Received T → Polled F T) (send : N → IoOp Operation → Option N)
    (Calm : F → Type 0) (work : F → ℕ) (gives : F → T)
    (calm_step : (env : E) (f : F) → Calm f → CalmStep Calm work gives f (poll_future env f))
    (j k : ℕ) (val : T) where
  poll_from-Goes :
      (env : E) (n : ℕ) (s : System F T N Operation R) (old : Thread F T N Operation R)
      (ex : Executor (Spawned F) N)
      → get_elem? s.threads j ≡ some old
      → IsValid ex
      → QueuesOf (IsCalm Calm gives k val) ex.tasks
      → total_work (spawned_work work) ex.tasks ≤ suc n
      → (QueuesOther k ex.tasks → s.replies k ≡ Reply.sent val)
      → Goes Calm work gives j k val n s
          (poll_from io false poll_future go_on send env false s j (idle ex))
  unfolding poll_from get_task Others
  poll_from-Goes env n s old ex e valid calm left arrived =
      let ex₁ = record ex {
        poll_handle = if io then (PollHandle.poll send ex.poll_handle).0 else ex.poll_handle;
      } in
      let (five, levelled) = get_task-IsLevelled false false ex.tasks 0 valid.levelled in
      elim (find_pop-Pops ex.tasks) [
        | inl (r, nothing) ↦
            let ex₂ = record ex₁ { tasks = ex.tasks } in
            subst (Goes Calm work gives j k val n s)
              (ap
                (λ g.
                  poll_task_at io false poll_future go_on send env s j
                    (idle (record ex₁ { tasks = g.0 })) g.1)
                (sym r))
              (
                put s j (idle ex₂),
                ex₂,
                refl,
                record {
                  found = get_elem?-set_same s.threads j old (idle ex₂) e;
                  valid = record { five = valid.five; levelled = valid.levelled };
                  calm = calm;
                  left = omega (arith, total_work-none (spawned_work work) ex.tasks nothing);
                  arrived = arrived;
                },
                λ y ne. get_elem?-set_other s.threads j y (idle ex₂) ne,
              )
        | inr (l, t, q, rest, x, r) ↦
            let calm' = subst (QueuesOf (IsCalm Calm gives k val)) x calm in
            subst (Goes Calm work gives j k val n s)
              (ap
                (λ g.
                  poll_task_at io false poll_future go_on send env s j
                    (idle (record ex₁ { tasks = g.0 })) g.1)
                (sym r))
              (settle-Goes Calm work gives j k val n s old
                (record ex₁ { tasks = empties l ++ q ∷ rest }) l t q rest
                (poll_future env t.future.1) e refl
                (record {
                  five = subst (λ g. length g.0 ≡ 5) r (five ∙ valid.five);
                  levelled = subst (λ g. IsLevelled 0 g.0) r levelled;
                })
                (omega (arith, IsLevelled-at l 0 t q rest (subst (IsLevelled 0) x valid.levelled)))
                (calm_step env t.future.1
                  (QueuesOf-front (IsCalm Calm gives k val) l t q rest calm').0)
                calm' (subst (λ ts. total_work (spawned_work work) ts ≤ suc n) x left)
                (λ o. arrived (subst (QueuesOther k) (sym x) o)))
      ]

  polled_round :
      (env : E) (s : System F T N Operation R) (ex : Executor (Spawned F) N)
      → get_elem? s.threads j ≡ some (idle ex)
      → advance io false poll_future go_on send env false false (send_at s j Transaction.poll) j
        ≡ poll_from io false poll_future go_on send env false (put s j (told ex)) j (idle ex)
  unfolding send_at advance handle_from
  polled_round env s ex e = rw (e, get_elem?-set_same s.threads j (idle ex) (told ex) e) refl

  round-Goes :
      (env : E) (n : ℕ) (s : System F T N Operation R) (ex : Executor (Spawned F) N)
      → IsWorking Calm work gives j k val (suc n) s ex
      → Goes Calm work gives j k val n s
          (advance io false poll_future go_on send env false false (send_at s j Transaction.poll) j)
  unfolding Others
  round-Goes env n s ex w =
      let (s', ex', r, w', o) =
        poll_from-Goes env n (put s j (told ex)) (told ex) ex
          (get_elem?-set_same s.threads j (idle ex) (told ex) w.found) w.valid w.calm w.left
          w.arrived in
      (
        s',
        ex',
        polled_round env s ex w.found ∙ r,
        w',
        λ y ne. o y ne ∙ get_elem?-set_other s.threads j y (told ex) ne,
      )

  abbrev poll_rest :
      (System F T N Operation R → Option (System F T N Operation R))
      → Option (System F T N Operation R)
      → Option (System F T N Operation R)
  poll_rest rest none = none
  poll_rest rest (some s) = rest s

  -- The executor `j` is told to poll, and does so, once for each environment.
  abbrev pub poll_times : List E → System F T N Operation R → Option (System F T N Operation R)
  poll_times [] s = some s
  poll_times (env ∷ envs) s =
      poll_rest (poll_times envs)
        (advance io false poll_future go_on send env false false (send_at s j Transaction.poll) j)

  abbrev Ends : System F T N Operation R → Option (System F T N Operation R) → Type 0
  Ends s r =
      (s' : System F T N Operation R) × (r ≡ some s')
      × (s'.replies k ≡ Reply.sent val)
      × Others Calm work gives j k val s s'

  poll_times-Ends :
      (envs : List E) (s : System F T N Operation R) (ex : Executor (Spawned F) N)
      → IsWorking Calm work gives j k val (length envs) s ex
      → Ends s (poll_times envs s)
  unfolding Others
  poll_times-Ends [] s ex w = (
    s,
    refl,
    w.arrived (
        QueuesOf-none (IsOther k) ex.tasks
          (total_work-zero (spawned_work work) ex.tasks (omega (arith, w.left)))),
    λ y ne. refl,
  )
  poll_times-Ends (env ∷ envs) s ex w =
      let (s₁, ex₁, r, w₁, o) = round-Goes env (length envs) s ex w in
      let (s', r', sent, o') = poll_times-Ends envs s₁ ex₁ w₁ in
      (s', ap (poll_rest (poll_times envs)) r ∙ r', sent, λ y ne. o' y ne ∙ o y ne)

  -- A wait for a task of another executor ends. Let the thread `j`, whose messages are all taken
  -- and which does not wait, have the task of the handle `k` among its tasks, and let its futures
  -- never wait, each pending poll lowering the work of a future and keeping its value. Without the
  -- feature fairness, and while `j` finds its shutdown flag unset, as many polls of `j` as the work
  -- of its tasks and one more for each send the value of the task, `val`, into the channel of the
  -- handle. Another thread that waits for `k` then goes on with that value: its poll is settled with
  -- what its future makes of `Ok(val)`, and then it looks at its own flag.
  pub wait_ends :
      (envs : List E) (s : System F T N Operation R) (ex : Executor (Spawned F) N) (i : ℕ)
      (th : Thread F T N Operation R) (task : ImputioTask (Spawned F))
      → get_elem? s.threads j ≡ some (idle ex)
      → IsValid ex
      → QueuesOf (IsCalm Calm gives k val) ex.tasks
      → ¬ QueuesOther k ex.tasks
      → total_work (spawned_work work) ex.tasks ≤ length envs
      → j ≢ i
      → get_elem? s.threads i ≡ some th
      → th.ended ≡ false
      → th.waiting ≡ some (k, task)
      → (s' : System F T N Operation R) × (poll_times envs s ≡ some s')
        × (s'.replies k ≡ Reply.sent val)
        × ((env : E) (coin flag : Bool)
            → advance io false poll_future go_on send env coin flag s' i
              ≡ check_flag flag i (settle s' i th task (go_on env task.future.1 (Received.ok val))))
  unfolding advance Others blocking_await
  wait_ends envs s ex i th task found valid calm has enough ne e runs w =
      let (s', r, sent, o) = poll_times-Ends envs s ex (record {
        found = found;
        valid = valid;
        calm = calm;
        left = enough;
        arrived = λ none_left. absurd (has none_left);
      }) in
      (s', r, sent, λ env coin flag. rw (o i ne ∙ e, runs, w, sent) refl)
