-- ===== src/Runtime/Several.antt =====
-- imputio/src/runtime.rs: several runtimes of one process, which share the global `EXECUTOR` of
-- imputio/src/lib.rs, in any interleaving of their actions.
pub mod Orphans
mod Tests
use toy_io.Common.{
  ℕ, zero, suc, ◌≡◌, refl, ap, ◌∙◌, sym, Bool, true, false, Option, none, some, List, [], ◌∷◌, ◌++◌,
  append_assoc, get_elem?, set, ◌≢◌, get_elem?-set_other, get_elem?-set_same, if◌then◌else◌, ◌==◌,
}
use toy_io.Flume.{Link, Notices}
use toy_io.Executor.Protocol.{Transaction, Result}
use toy_io.Config.ExecThread.{ExecThreadConfig}
use toy_io.Coordinator.{ExecHandleCoordinator, initialize, shut_down}
use toy_io.Coordinator
use toy_io.Runtime.{
  ImputioRuntime, World, Outcome, done, blocks, panics, store, start_all, start, stop, stop_after,
  after_poll,
}
use toy_io.Runtime
use toy_io.Runtime.Actions.{Action, notified, step}

-- What a runtime has for itself.
pub record Own (Chan : Type 0) : Type 0 where
  pub rt : ImputioRuntime
  pub shutdown : Chan
  pub polling : ℕ

pub record Several (H Chan : Type 0) : Type 0 where
  pub runtimes : List (Own Chan)
  pub executor : ExecHandleCoordinator H
  pub replaced : List (ExecHandleCoordinator H)

module _ {H Chan : Type 0} where
  -- One runtime's view of the process, and the process after its action.
  abbrev pub view : Several H Chan → Own Chan → World H Chan
  view s own = record {
    rt = own.rt;
    shutdown = own.shutdown;
    executor = s.executor;
    replaced = s.replaced;
    polling = own.polling;
  }

  abbrev pub left_by : Several H Chan → ℕ → World H Chan → Several H Chan
  left_by s i w = record {
    runtimes = set s.runtimes i (record { rt = w.rt; shutdown = w.shutdown; polling = w.polling });
    executor = w.executor;
    replaced = w.replaced;
  }

  abbrev pub acted : Several H Chan → ℕ → Outcome (World H Chan) → Outcome (Several H Chan)
  acted s i (done w) = done (left_by s i w)
  acted s i blocks = blocks
  acted s i panics = panics

module _ {H : Type 0} where
  -- Nothing is taken from the coordinators that were replaced, and none of them is changed.
  abbrev pub Grows : List (ExecHandleCoordinator H) → List (ExecHandleCoordinator H) → Type 0
  Grows old new = (more : List (ExecHandleCoordinator H)) × (new ≡ more ++ old)

module _ {A : Type 0} where
  abbrev value_or : A → Outcome A → A
  value_or a (done b) = b
  value_or a _ = a

  done-injective : (a b : A) → done a ≡ done b → a ≡ b
  done-injective a b e = ap (value_or a) e

module _ {H Chan : Type 0} where
  abbrev pub GrowsTo : World H Chan → Outcome (World H Chan) → Type 0
  GrowsTo w (done w') = Grows w.replaced w'.replaced
  GrowsTo w blocks = Unit
  GrowsTo w panics = Unit

module _ {F Operation R : Type 0} (link : Link (Transaction F Operation R) R (Result (Unit {0})))
    (notices : Notices) (gone : link.Net) (start_thread : ExecThreadConfig → Option link.Net) where
  open link use {Net}
  open notices use {Chan, queued}

  abbrev pub act : Several Net Chan → ℕ → Action F → Option (Own Chan) → Outcome (Several Net Chan)
  act s i a none = done s
  act s i a (some own) = acted s i (step link notices gone start_thread (view s own) a)

  -- Each action is one of the runtime of that index.
  unfoldable pub steps_of : Several Net Chan → List (ℕ × Action F) → Outcome (Several Net Chan)
  steps_of s [] = done s
  steps_of s ((i, a) ∷ acts) = elim (act s i a (get_elem? s.runtimes i)) [
    | done s' ↦ steps_of s' acts
    | blocks ↦ blocks
    | panics ↦ panics
  ]

  start-GrowsTo :
      (w : World Net Chan) (thread : ℕ) (o : Option (List Net)) → GrowsTo w (start thread w o)
  unfolding start store
  start-GrowsTo w thread none = tt
  start-GrowsTo w thread (some hs) = (w.executor ∷ [], refl)

  stop_after-GrowsTo :
      (w : World Net Chan) (o : Option Chan) → GrowsTo w (stop_after notices gone w o)
  unfolding stop_after stop store
  stop_after-GrowsTo w none = tt
  stop_after-GrowsTo w (some chan) = (shut_down w.executor ∷ [], refl)

  after_poll-Grows :
      (w : World Net Chan) (o : Option Chan)
      → Grows w.replaced (after_poll notices gone w o).replaced
  unfolding after_poll stop store
  after_poll-Grows w none = ([], refl)
  after_poll-Grows w (some chan) = (shut_down w.executor ∷ [], refl)

  if-GrowsTo :
      (w : World Net Chan) (b : Bool) (o o' : Outcome (World Net Chan))
      → GrowsTo w o
      → GrowsTo w o'
      → GrowsTo w (if b then o else o')
  if-GrowsTo w true o o' h h' = h
  if-GrowsTo w false o o' h h' = h'

  polled-GrowsTo :
      (w : World Net Chan) (o : Option (ExecHandleCoordinator Net × Unit {0}))
      → GrowsTo w (elim o [
        | none ↦ panics
        | some (c, _) ↦
            done (after_poll notices gone (record w { executor = c }) (notices.try_recv w.shutdown))
      ])
  polled-GrowsTo w none = tt
  polled-GrowsTo w (some (c, _)) =
      after_poll-Grows (record w { executor = c }) (notices.try_recv w.shutdown)

  notified-GrowsTo :
      (w : World Net Chan) (o : Option Chan)
      → GrowsTo w (notified link notices gone start_thread w o)
  notified-GrowsTo w none = tt
  notified-GrowsTo w (some chan) = ([], refl)

  spawned-GrowsTo :
      (w : World Net Chan) (o : Option (ExecHandleCoordinator Net × Unit {0}))
      → GrowsTo w (Runtime.spawned link notices gone w o)
  spawned-GrowsTo w none = tt
  spawned-GrowsTo w (some (c, _)) = ([], refl)

  step-GrowsTo :
      (w : World Net Chan) (a : Action F) → GrowsTo w (step link notices gone start_thread w a)
  unfolding step Runtime.run Runtime.shutdown Runtime.turn Runtime.spawn
  step-GrowsTo w (Action.run thread) =
      if-GrowsTo w w.rt.state (done w)
        (start thread w (start_all start_thread w.rt.cfg.exec_thread_config)) ([], refl)
        (start-GrowsTo w thread (start_all start_thread w.rt.cfg.exec_thread_config))
  step-GrowsTo w Action.shutdown = stop_after-GrowsTo w (notices.send w.shutdown)
  step-GrowsTo w Action.notify = notified-GrowsTo w (notices.send w.shutdown)
  step-GrowsTo w Action.turn =
      if-GrowsTo w (w.polling == 0) (done w) (Runtime.turn link notices gone w) ([], refl)
        (polled-GrowsTo w (Coordinator.poll link w.executor))
  step-GrowsTo w (Action.spawn task) = spawned-GrowsTo w (Coordinator.spawn link w.executor task)

  act-Grows :
      (s s' : Several Net Chan) (i : ℕ) (a : Action F) (o : Option (Own Chan))
      → act s i a o ≡ done s'
      → Grows s.replaced s'.replaced
  act-Grows s s' i a none e = rw (← done-injective s s' e) ([], refl)
  act-Grows s s' i a (some own) e =
      acted-Grows (step link notices gone start_thread (view s own) a) (step-GrowsTo (view s own) a)
        e
    where
      acted-Grows :
          (o : Outcome (World Net Chan))
          → GrowsTo (view s own) o
          → acted s i o ≡ done s'
          → Grows s.replaced s'.replaced
      acted-Grows (done w) h e' = rw (← done-injective (left_by s i w) s' e') h
      acted-Grows blocks h e' = cc
      acted-Grows panics h e' = cc

  pub steps_of-Grows :
      (s s' : Several Net Chan) (acts : List (ℕ × Action F))
      → steps_of s acts ≡ done s'
      → Grows s.replaced s'.replaced
  unfolding steps_of
  steps_of-Grows s s' [] e = rw (← done-injective s s' e) ([], refl)
  steps_of-Grows s s' ((i, a) ∷ acts) e =
      onwards (act s i a (get_elem? s.runtimes i)) refl (λ s₁. steps_of-Grows s₁ s' acts) e
    where
      onwards :
          (o : Outcome (Several Net Chan))
          → act s i a (get_elem? s.runtimes i) ≡ o
          → ((s₁ : Several Net Chan) → steps_of s₁ acts ≡ done s' → Grows s₁.replaced s'.replaced)
          → (elim o [ done s₁ ↦ steps_of s₁ acts | blocks ↦ blocks | panics ↦ panics ]) ≡ done s'
          → Grows s.replaced s'.replaced
      onwards (done s₁) h rest k =
          let (more, p) = act-Grows s s₁ i a (get_elem? s.runtimes i) h in
          let (more', q) = rest s₁ k in
          (more' ++ more, q ∙ ap (λ l. more' ++ l) p ∙ sym (append_assoc more' more s.replaced))
      onwards blocks h rest k = cc
      onwards panics h rest k = cc
