-- ===== src/Runtime/Several/Orphans.antt =====
-- imputio/src/runtime.rs: two runtimes of one process that are started one after the other.
use toy_io.Common.{
  ℕ, suc, ◌≡◌, refl, ◌∙◌, sym, true, false, Option, some, List, [], ◌∷◌, ◌++◌, get_elem?, set, ◌≢◌,
  get_elem?-set_other, get_elem?-set_same,
}
use toy_io.Flume.{Link, Notices, RoomFor}
use toy_io.Executor.Protocol.{Transaction, Result}
use toy_io.Config.ExecThread.{ExecThreadConfig}
use toy_io.Coordinator.{ExecHandleCoordinator, initialize, shut_down}
use toy_io.Coordinator
use toy_io.Runtime.{
  ImputioRuntime, World, Outcome, done, blocks, panics, store, start_all, start, stop, stop_after,
  after_poll,
}
use toy_io.Runtime
use toy_io.Runtime.Actions.{Action, step}
use toy_io.Runtime.Several.{Own, Several, view, left_by, act, steps_of, steps_of-Grows}

module _ {F Operation R : Type 0} (link : Link (Transaction F Operation R) R (Result (Unit {0})))
    (notices : Notices) (gone : link.Net) (start_thread : ExecThreadConfig → Option link.Net) where
  open link use {Net}
  open notices use {Chan, capacity, queued}

  -- What a runtime that was not running leaves after `run`.
  abbrev after_run : Several Net Chan → ℕ → ℕ → Own Chan → List Net → Several Net Chan
  after_run s i thread own handles = record {
    runtimes = set s.runtimes i (record own {
      rt = record own.rt { state = true; exec_thread_id = thread };
      polling = suc own.polling;
    });
    executor = initialize handles;
    replaced = s.executor ∷ s.replaced;
  }

  -- The runtime `i` is not running, and `handles` are those of the executors that it would start.
  abbrev pub Startable : Several Net Chan → ℕ → Own Chan → List Net → Type 0
  Startable s i own handles =
      (get_elem? s.runtimes i ≡ some own)
      × (own.rt.state ≡ false)
      × (start_all start_thread own.rt.cfg.exec_thread_config ≡ some handles)

  act-run :
      (s : Several Net Chan) (i thread : ℕ) (own : Own Chan) (handles : List Net)
      → own.rt.state ≡ false
      → start_all start_thread own.rt.cfg.exec_thread_config ≡ some handles
      → act link notices gone start_thread s i (Action.run thread) (some own)
        ≡ done (after_run s i thread own handles)
  unfolding step Runtime.run start store
  act-run s i thread own handles e h = simp (e, h, Runtime.run) refl

  steps_of-next :
      (s s' : Several Net Chan) (i : ℕ) (a : Action F) (acts : List (ℕ × Action F)) (own : Own Chan)
      → get_elem? s.runtimes i ≡ some own
      → act link notices gone start_thread s i a (some own) ≡ done s'
      → steps_of link notices gone start_thread s ((i, a) ∷ acts)
        ≡ steps_of link notices gone start_thread s' acts
  unfolding steps_of
  steps_of-next s s' i a acts own e h = rw (steps_of, e, h) refl

  -- Both runtimes are started, and then there are other actions.
  both_run :
      (s : Several Net Chan) (i j n m : ℕ) (own own' : Own Chan) (hs hs' : List Net)
      (acts : List (ℕ × Action F))
      → i ≢ j
      → Startable s i own hs
      → Startable s j own' hs'
      → steps_of link notices gone start_thread s ((i, Action.run n) ∷ (j, Action.run m) ∷ acts)
        ≡ steps_of link notices gone start_thread
            (after_run (after_run s i n own hs) j m own' hs')
            acts
  both_run s i j n m own own' hs hs' acts ne h h' =
      let s₁ = after_run s i n own hs in
      steps_of-next s s₁ i (Action.run n) ((j, Action.run m) ∷ acts) own h.0
        (act-run s i n own hs h.1 h.2)
      ∙ steps_of-next s₁ (after_run s₁ j m own' hs') j (Action.run m) acts own'
          (get_elem?-set_other s.runtimes i j _ ne ∙ h'.0) (act-run s₁ j m own' hs' h'.1 h'.2)

  act-shutdown :
      (s : Several Net Chan) (i : ℕ) (own : Own Chan) (chan : Chan)
      → notices.send own.shutdown ≡ some chan
      → act link notices gone start_thread s i Action.shutdown (some own)
        ≡ done (left_by s i (stop gone (record (view s own) { shutdown = chan })))
  unfolding step Runtime.shutdown stop_after
  act-shutdown s i own chan e = rw (e, stop_after) refl

  -- The executors of the first runtime run for ever: if two runtimes of a process are started one
  -- after the other, then the coordinator of the first is replaced with its flag unset, and
  -- whatever any runtime, its users and its thread do later, shutdowns and drops included, that
  -- flag is not set any more.
  pub second_run_orphans :
      (s s' : Several Net Chan) (i j n m : ℕ) (own own' : Own Chan) (hs hs' : List Net)
      (acts : List (ℕ × Action F))
      → i ≢ j
      → Startable s i own hs
      → Startable s j own' hs'
      → steps_of link notices gone start_thread s ((i, Action.run n) ∷ (j, Action.run m) ∷ acts)
        ≡ done s'
      → (before after : List (ExecHandleCoordinator Net)) × (s'.replaced
          ≡ before ++ initialize hs ∷ after)
        × ((initialize hs).shutdown ≡ false)
  unfolding initialize
  second_run_orphans s s' i j n m own own' hs hs' acts ne h h' e =
      let s₁ = after_run s i n own hs in
      let (before, p) =
        steps_of-Grows link notices gone start_thread (after_run s₁ j m own' hs') s' acts
          (sym (both_run s i j n m own own' hs hs' acts ne h h') ∙ e) in
      (before, s.executor ∷ s.replaced, p, refl)

  -- A shutdown stops what was started last: when two runtimes were started one after the other, the
  -- shutdown of the first sets the flag of the second one's executors and takes the global executor
  -- away from it, which still counts as running, and leaves its own executors running.
  pub shutdown_stops_other :
      (s : Several Net Chan) (i j n m : ℕ) (own own' : Own Chan) (hs hs' : List Net)
      → i ≢ j
      → Startable s i own hs
      → Startable s j own' hs'
      → RoomFor (capacity own.shutdown) (queued own.shutdown)
      → (s' : Several Net Chan) × (last : Own Chan) × (steps_of link notices gone start_thread s
            ((i, Action.run n) ∷ (j, Action.run m) ∷ (i, Action.shutdown) ∷ [])
          ≡ done s')
        × (s'.executor ≡ Coordinator.new gone)
        × (s'.replaced ≡ shut_down (initialize hs') ∷ initialize hs ∷ s.executor ∷ s.replaced)
        × (get_elem? s'.runtimes j ≡ some last)
        × (last.rt.state ≡ true)
  unfolding steps_of stop store
  shutdown_stops_other s i j n m own own' hs hs' ne h h' q =
      let s₁ = after_run s i n own hs in
      let s₂ = after_run s₁ j m own' hs' in
      let (chan, sent, _, _) = notices.send-room own.shutdown q in
      let mine = get_elem?-set_same s.runtimes i own _ h.0 in
      let still : get_elem? s₂.runtimes i ≡ get_elem? s₁.runtimes i =
        get_elem?-set_other s₁.runtimes j i _ (λ p. ne (sym p)) in
      let yours =
        get_elem?-set_same s₁.runtimes j own' _ (get_elem?-set_other s.runtimes i j _ ne ∙ h'.0) in
      (
        _,
        _,
        both_run s i j n m own own' hs hs' ((i, Action.shutdown) ∷ []) ne h h'
            ∙ steps_of-next s₂ _ i Action.shutdown [] _ (still ∙ mine)
                (act-shutdown s₂ i _ chan sent),
        refl,
        refl,
        get_elem?-set_other s₂.runtimes i j _ ne ∙ yours,
        refl,
      )
