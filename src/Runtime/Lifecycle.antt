-- ===== src/Runtime/Lifecycle.antt =====
-- imputio/src/runtime.rs: no sequence of actions on one runtime panics, or leaves an executor running unseen.
use toy_io.Common.{
  ℕ, ◌<◌, ◌≡◌, ◌≢◌, refl, Bool, true, false, Option, none, some, List, [], ◌∷◌, arith, length, inl,
  inr, Bool-cases, Option-cases, if◌then◌else◌, ◌==◌,
}
use toy_io.Flume.{Link, Notices}
use toy_io.Task.{ImputioTask}
use toy_io.Executor.Protocol.{Transaction, Result}
use toy_io.Config.ExecThread.{ExecThreadConfig}
use toy_io.Coordinator.{ExecHandleCoordinator, usize_mod, initialize, dispatch}
use toy_io.Coordinator
use toy_io.Coordinator.Turns.{initialize-IsValid}
use toy_io.Runtime.{
  World, Outcome, done, blocks, panics, store, start_all, start, stop, stop_after, after_poll,
}
use toy_io.Runtime
use toy_io.Runtime.Actions.{Action, notified, step, steps}
use toy_io.Runtime.Sound.{IsSound, IsFine, stop_after-IsFine, after_poll-IsSound, dispatch-IsSound}

module _ {F Operation R : Type 0} (link : Link (Transaction F Operation R) R (Result (Unit {0})))
    (notices : Notices) (gone : link.Net) (start_thread : ExecThreadConfig → Option link.Net)
    (dead : (m : Transaction F Operation R) → link.send gone m ≡ none)
    (starts : (cfg : ExecThreadConfig) → start_thread cfg ≢ none) where
  open link use {Net}
  open notices use {Chan, queued}

  start_all-length :
      (cfgs : List ExecThreadConfig)
      → (hs : List Net) × (start_all start_thread cfgs ≡ some hs) × (length hs ≡ length cfgs)
  unfolding start_all
  start_all-length [] = ([], refl, refl)
  start_all-length (cfg ∷ cfgs) = elim (Option-cases (start_thread cfg)) [
    | inl e ↦ absurd (starts cfg e)
    | inr (h, e) ↦
        let (hs, e', n) = start_all-length cfgs in
        (h ∷ hs, rw (start_all, e, e') refl, omega (arith, n))
  ]

  -- The configuration has an executor, and not more than fit into a `usize`.
  abbrev pub Configured : World Net Chan → Type 0
  Configured w = let n = length w.rt.cfg.exec_thread_config in (0 < n) × (n < usize_mod)

  abbrev IsGood : World Net Chan → Outcome (World Net Chan) → Type 0
  IsGood w (done w') = (w'.rt.cfg ≡ w.rt.cfg) × IsSound link notices gone w'
  IsGood w blocks = Unit
  IsGood w panics = ⊥

  start-IsGood :
      (thread : ℕ) (w : World Net Chan)
      → w.rt.state ≡ false
      → Configured w
      → IsSound link notices gone w
      → IsGood w (start thread w (start_all start_thread w.rt.cfg.exec_thread_config))
  unfolding start
  start-IsGood thread w s c v =
      let (hs, e, n) = start_all-length w.rt.cfg.exec_thread_config in
      rw (e, start)
        (
          refl,
          record {
            valid = initialize-IsValid hs (omega (arith, n, c.0)) (omega (arith, n, c.1));
            unstarted = λ t. cc;
            quiet = (inr (v.unstarted s), v.quiet);
          },
        )

  stop_after-IsGood :
      (w : World Net Chan) (o : Option Chan)
      → IsSound link notices gone w
      → IsGood w (stop_after notices gone w o)
  unfolding stop_after stop
  stop_after-IsGood w none v = tt
  stop_after-IsGood w (some chan) v = (refl, stop_after-IsFine link notices gone w (some chan) v)

  after_poll-cfg :
      (w : World Net Chan) (o : Option Chan) → (after_poll notices gone w o).rt.cfg ≡ w.rt.cfg
  unfolding after_poll stop
  after_poll-cfg w none = refl
  after_poll-cfg w (some chan) = refl

  run-IsGood :
      (thread : ℕ) (w : World Net Chan) (b : Bool)
      → w.rt.state ≡ b
      → Configured w
      → IsSound link notices gone w
      → IsGood w (
          if b then done w else start thread w (start_all start_thread w.rt.cfg.exec_thread_config))
  run-IsGood thread w true s c v = (refl, v)
  run-IsGood thread w false s c v = start-IsGood thread w s c v

  turn-IsGood :
      (w : World Net Chan)
      → IsSound link notices gone w
      → IsGood w (Runtime.turn link notices gone w)
  unfolding Runtime.turn Coordinator.poll Coordinator.handle_poll
  turn-IsGood w v =
      let still : Coordinator.after link gone (link.send gone Transaction.poll) ≡ gone =
        rw (dead Transaction.poll) refl in
      let (c, e, s) = dispatch-IsSound link notices gone w (Coordinator.handle_poll link) still v in
      let w' = record w { executor = c } in
      rw (e, Runtime.turn)
        (
          after_poll-cfg w' (notices.try_recv w.shutdown),
          after_poll-IsSound link notices gone w' (notices.try_recv w.shutdown) s,
        )

  spawn-IsGood :
      (w : World Net Chan) (task : ImputioTask F)
      → IsSound link notices gone w
      → IsGood w (Runtime.spawn link notices gone w task)
  unfolding Runtime.spawn Coordinator.spawn Coordinator.handle_spawn
  spawn-IsGood w task v =
      let still : Coordinator.after link gone (link.send gone (Transaction.spawn task)) ≡ gone =
        rw (dead (Transaction.spawn task)) refl in
      let (c, e, s) =
        dispatch-IsSound link notices gone w (Coordinator.handle_spawn link task) still v in
      rw (e, Runtime.spawn) (refl, s)

  notified-IsGood :
      (w : World Net Chan) (o : Option Chan)
      → IsSound link notices gone w
      → IsGood w (notified link notices gone start_thread w o)
  notified-IsGood w none v = tt
  notified-IsGood w (some chan) v =
      (refl, record { valid = v.valid; unstarted = v.unstarted; quiet = v.quiet })

  step-IsGood :
      (w : World Net Chan) (a : Action F)
      → Configured w
      → IsSound link notices gone w
      → IsGood w (step link notices gone start_thread w a)
  unfolding step Runtime.run Runtime.shutdown
  step-IsGood w (Action.run thread) c v = run-IsGood thread w w.rt.state refl c v
  step-IsGood w Action.shutdown c v = stop_after-IsGood w (notices.send w.shutdown) v
  step-IsGood w Action.notify c v = notified-IsGood w (notices.send w.shutdown) v
  step-IsGood w Action.turn c v = elim (Bool-cases (w.polling == 0)) [
    | inl z ↦ rw (z, step) (refl, v)
    | inr z ↦ rw (z, step) (turn-IsGood w v)
  ]
  step-IsGood w (Action.spawn task) c v = spawn-IsGood w task v

  follow :
      (w : World Net Chan) (k : World Net Chan → Outcome (World Net Chan))
      (o : Outcome (World Net Chan))
      → Configured w
      → IsGood w o
      → ((w' : World Net Chan)
          → Configured w'
          → IsSound link notices gone w'
          → IsFine link notices gone (k w'))
      → IsFine link notices gone (elim o [ done w' ↦ k w' | blocks ↦ blocks | panics ↦ panics ])
  follow w k (done w') c g next = next w' (rw g.0 c) g.1
  follow w k blocks c g next = tt
  follow w k panics c g next = absurd g

  -- In a process with one runtime, in whatever order it is run and shut down, tasks are spawned,
  -- notices are sent and the polling thread has its turns, nothing panics, and every coordinator
  -- that was replaced has no executor or has its flag set, so no executor is left running unseen.
  -- The configuration must not be empty, and every thread must start. It may be that a send of a
  -- notice blocks. Registrations, blocking calls and a second runtime are not among these actions.
  pub steps-IsFine :
      (acts : List (Action F)) (w : World Net Chan)
      → Configured w
      → IsSound link notices gone w
      → IsFine link notices gone (steps link notices gone start_thread w acts)
  unfolding steps
  steps-IsFine [] w c v = v
  steps-IsFine (a ∷ acts) w c v =
      follow w (λ w'. steps link notices gone start_thread w' acts)
        (step link notices gone start_thread w a) c (step-IsGood w a c v)
        (λ w' c' v'. steps-IsFine acts w' c' v')
