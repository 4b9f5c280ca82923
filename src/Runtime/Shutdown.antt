-- ===== src/Runtime/Shutdown.antt =====
-- imputio/src/runtime.rs: what `shutdown` and a notice leave.
use native.Mathlib.Decide.{ℕ_discrete}
use toy_io.Common.{
  ℕ, zero, suc, false, none, some, List, ◌+◌, ◌-◌, ◌<◌, ◌≡◌, ◌⊎◌, inl, inr, refl, ap, sym, subst,
  ◌∙◌, true, false, Bool, Option, [], ◌∷◌, arith, length, leb, ◌==◌, length-set, set,
}
use toy_io.Flume.{Link, Notices, RoomFor}
use toy_io.Executor.Protocol.{Transaction, Result}
use toy_io.Config.ExecThread.{ExecThreadConfig}
use toy_io.Coordinator.{ExecHandleCoordinator, dispatch}
use toy_io.Coordinator
use toy_io.Coordinator.Turns.{following, dispatch_lem}
use toy_io.Runtime.{
  World, store, Outcome, done, blocks, panics, start_all, start, stop, stop_after, after_poll,
}
use toy_io.Runtime
use toy_io.Runtime.Actions.{Action, step, steps}
use toy_io.Runtime.Sound.{IsSound}

-- As many notices fit into a channel of this capacity.
abbrev pub fits : Option ℕ → ℕ → Bool
fits none n = true
fits (some most) n = leb n most

Room-cases : (most : Option ℕ) (n : ℕ) → fits most n ≡ true → RoomFor most n ⊎ (most ≡ some n)
Room-cases none n f = inl tt
Room-cases (some most) n f = elim (ℕ_discrete n most) [
  | yes e ↦ inr (ap (λ m. some m) (sym e))
  | no ne ↦ inl (ground (arith, f, ne))
]

fits-suc : (most : Option ℕ) (n : ℕ) → RoomFor most n → fits most (suc n) ≡ true
fits-suc none n r = refl
fits-suc (some most) n r = ground arith

fits-full : (k n : ℕ) → fits (some n) (suc k + n) ≡ false
fits-full k n = ground arith

module _ {F Operation R : Type 0} (link : Link (Transaction F Operation R) R (Result (Unit {0})))
    (notices : Notices) (gone : link.Net) (start_thread : ExecThreadConfig → Option link.Net) where
  open link use {Net}
  open notices use {Chan, capacity, queued}

  abbrev pub shutdowns : ℕ → List (Action F)
  shutdowns zero = []
  shutdowns (suc k) = Action.shutdown ∷ shutdowns k

  -- With `total` notices in the end: the calls return and leave them all waiting, where they fit,
  -- and otherwise one of the calls blocks.
  abbrev pub EndsWith : (total polling : ℕ) → Bool → Outcome (World Net Chan) → Type 0
  EndsWith total polling true (done w) = (queued w.shutdown ≡ total) × (w.polling ≡ polling)
  EndsWith total polling false blocks = Unit
  EndsWith total polling _ _ = ⊥

  shutdowns-sent :
      (k : ℕ) (w : World Net Chan) (c : Chan)
      → notices.send w.shutdown ≡ some c
      → steps link notices gone start_thread w (shutdowns (suc k))
        ≡ steps link notices gone start_thread (stop gone (record w { shutdown = c })) (shutdowns k)
  unfolding steps step Runtime.shutdown stop_after
  shutdowns-sent k w c s = rw (s, steps, step) refl

  shutdowns-blocked :
      (k : ℕ) (w : World Net Chan)
      → notices.send w.shutdown ≡ none
      → steps link notices gone start_thread w (shutdowns (suc k)) ≡ blocks
  unfolding steps step Runtime.shutdown stop_after
  shutdowns-blocked k w s = rw (s, steps, step) refl

  -- Shutdowns with no turn of the polling thread in between: where no more notices wait than the
  -- channel holds, `k` shutdowns return exactly if `k` more notices fit, whatever the capacity, and
  -- always if it is unbounded; each leaves its notice waiting, and none stops the polling thread. If
  -- they do not fit, one of them blocks.
  pub shutdowns_lem :
      (k : ℕ) (w : World Net Chan) (most : Option ℕ) (n : ℕ)
      → capacity w.shutdown ≡ most
      → queued w.shutdown ≡ n
      → fits most n ≡ true
      → EndsWith
          (k + n)
          w.polling
          (fits most (k + n))
          (steps link notices gone start_thread w (shutdowns k))
  unfolding steps stop store
  shutdowns_lem zero w most n c q f =
      let same : n ≡ zero + n = omega arith in
      subst (λ m. EndsWith m w.polling (fits most m) (done w)) same
        (subst (λ b. EndsWith n w.polling b (done w)) (sym f) (q, refl))
  shutdowns_lem (suc k) w most n c q f = elim (Room-cases most n f) [
    | inl room ↦
        let (chan, s, q', c') = notices.send-room w.shutdown (rw (c, q) room) in
        let w' = stop gone (record w { shutdown = chan }) in
        let more : fits most (suc n) ≡ true = fits-suc most n room in
        let rest = shutdowns_lem k w' most (suc n) (c' ∙ c) (q' ∙ ap suc q) more in
        let same : k + suc n ≡ suc k + n = omega arith in
        subst
          (λ m.
            EndsWith m w.polling (fits most m)
              (steps link notices gone start_thread w (shutdowns (suc k))))
          same
          (subst (EndsWith (k + suc n) w.polling (fits most (k + suc n)))
            (sym (shutdowns-sent k w chan s)) rest)
    | inr full ↦
        let s = notices.send-full w.shutdown (c ∙ full ∙ ap some (sym q)) in
        rw (full, shutdowns-blocked k w s, fits-full k n) tt
  ]

  -- A runtime that was running and was shut down does not start again: `run` returns as if it were
  -- running, starts no thread, and leaves the global executor without executors.
  pub run_after_shutdown :
      (w : World Net Chan) (thread : ℕ)
      → w.rt.state ≡ true
      → RoomFor (capacity w.shutdown) (queued w.shutdown)
      → (w' : World Net Chan) × (steps link notices gone start_thread w
            (Action.shutdown ∷ Action.run thread ∷ [])
          ≡ done w')
        × (w'.executor ≡ Coordinator.new gone)
        × (w'.polling ≡ w.polling)
  unfolding steps step Runtime.shutdown Runtime.run stop_after stop
  run_after_shutdown w thread r e =
      let (c, s, _, _) = notices.send-room w.shutdown e in
      let w' = stop gone (record w { shutdown = c }) in
      (w', rw (s, steps, step, r) refl, refl, refl)

  -- A notice stops the executors at the next turn of the polling thread, if no other notice waits:
  -- the coordinator that was the global one has its flag set and all its handles, one without
  -- executors takes its place, and the thread ends.
  pub notice_stops :
      (w : World Net Chan)
      → IsSound link notices gone w
      → 0 < w.polling
      → RoomFor (capacity w.shutdown) (queued w.shutdown)
      → (w' : World Net Chan) × (c : ExecHandleCoordinator Net) × (steps link notices gone
            start_thread w
            (Action.notify ∷ Action.turn ∷ [])
          ≡ done w')
        × (w'.executor ≡ Coordinator.new gone)
        × (w'.polling ≡ w.polling - 1)
        × (w'.replaced ≡ c ∷ w.replaced)
        × (c.shutdown ≡ true)
        × (length c.handles ≡ length w.executor.handles)
  unfolding steps step Runtime.turn after_poll stop Coordinator.poll Coordinator.shut_down
  notice_stops w v p e =
      let (chan, s, q, _) = notices.send-room w.shutdown e in
      let (chan', r, _, _) = notices.try_recv-some chan (queued w.shutdown) q in
      let (h, found, d, _) = dispatch_lem w.executor (Coordinator.handle_poll link) v.valid in
      let i = following w.executor in
      let busy : (w.polling == 0) ≡ false = ground arith in
      let c = record w.executor {
        handles = set w.executor.handles i (Coordinator.handle_poll link h).0;
        index = i;
        shutdown = true;
      } in
      (
        record w {
          shutdown = chan';
          executor = Coordinator.new gone;
          replaced = c ∷ w.replaced;
          polling = w.polling - 1;
        },
        c,
        rw (s, steps, step, busy, d, Runtime.turn, r) refl,
        refl,
        refl,
        refl,
        refl,
        length-set w.executor.handles i (Coordinator.handle_poll link h).0,
      )

module _ {H : Type 0} (notices : Notices) (gone : H) where
  open notices use {Chan, capacity, queued}

  -- A shutdown with room for its notice.
  pub shutdown-room :
      (w : World H Chan)
      → RoomFor (capacity w.shutdown) (queued w.shutdown)
      → (chan : Chan) × (Runtime.shutdown notices gone w
          ≡ done (stop gone (record w { shutdown = chan })))
  unfolding Runtime.shutdown stop_after
  shutdown-room w e =
      let (chan, s, _, _) = notices.send-room w.shutdown e in (chan, rw (s, stop_after) refl)

  -- What the shutdown leaves of the global executor.
  pub stop-executor :
      (w : World H Chan)
      → ((stop gone w).executor ≡ Coordinator.new gone)
        × ((stop gone w).replaced ≡ Coordinator.shut_down w.executor ∷ w.replaced)
  unfolding stop store
  stop-executor w = (refl, refl)

module _ {H Chan : Type 0} where
  -- What `run` leaves of a runtime that was not running.
  abbrev pub started : ℕ → World H Chan → List H → World H Chan
  started thread w handles = record w {
    rt = record w.rt { state = true; exec_thread_id = thread };
    executor = Coordinator.initialize handles;
    replaced = w.executor ∷ w.replaced;
    polling = suc w.polling;
  }

  pub run-started :
      (start_thread : ExecThreadConfig → Option H) (thread : ℕ) (w : World H Chan)
      (handles : List H)
      → w.rt.state ≡ false
      → start_all start_thread w.rt.cfg.exec_thread_config ≡ some handles
      → Runtime.run start_thread thread w ≡ done (started thread w handles)
  unfolding Runtime.run start store
  run-started start_thread thread w handles e h = simp (e, h, Runtime.run) refl
