-- ===== src/Runtime/Sound.antt =====
-- imputio/src/runtime.rs: a runtime whose global executor can be called, and whose former ones are
-- at rest; each part of a call keeps it so.
use toy_io.Common.{
  ◌≡◌, refl, ap, true, false, Option, none, some, List, [], ◌∷◌, arith, get_elem?, set, ◌⊎◌, inl,
}
use toy_io.Flume.{Link, Notices}
use toy_io.Executor.Protocol.{Transaction, Result}
use toy_io.Coordinator.{ExecHandleCoordinator, usize_mod, initialize, dispatch}
use toy_io.Coordinator
use toy_io.Coordinator.Turns.{IsValid, following, dispatch_lem}
use toy_io.Runtime.{World, Outcome, done, blocks, panics, stop, stop_after, after_poll}

module _ {F Operation R : Type 0} (link : Link (Transaction F Operation R) R (Result (Unit {0})))
    (notices : Notices) (gone : link.Net) where
  open link use {Net}
  open notices use {Chan, queued}

  -- One handle, and its executor is gone.
  abbrev pub Idle : ExecHandleCoordinator Net → Type 0
  Idle c = (c.handles ≡ gone ∷ []) × (c.index ≡ 0)

  -- No executor runs for a coordinator that was replaced: it has none, or they were told to stop.
  abbrev pub AllQuiet : List (ExecHandleCoordinator Net) → Type 0
  AllQuiet [] = Unit
  AllQuiet (c ∷ cs) = ((c.shutdown ≡ true) ⊎ Idle c) × AllQuiet cs

  pub record IsSound (w : World Net Chan) : Type 0 where
    pub valid : IsValid w.executor
    pub unstarted : w.rt.state ≡ false → Idle w.executor
    pub quiet : AllQuiet w.replaced

  abbrev pub IsFine : Outcome (World Net Chan) → Type 0
  IsFine (done w) = IsSound w
  IsFine blocks = Unit
  IsFine panics = ⊥

  pub new-IsValid : (c : ExecHandleCoordinator Net) → c ≡ Coordinator.new gone → IsValid c × Idle c
  unfolding Coordinator.new
  new-IsValid c e = rw e (record { inside = omega arith; fits = omega arith }, (refl, refl))

  pub stop-IsSound : (w : World Net Chan) → IsSound w → IsSound (stop gone w)
  unfolding stop Coordinator.shut_down
  stop-IsSound w v =
      let (n, i) = new-IsValid (Coordinator.new gone) refl in
      record { valid = n; unstarted = λ _. i; quiet = (inl refl, v.quiet) }

  pub stop_after-IsFine :
      (w : World Net Chan) (o : Option Chan) → IsSound w → IsFine (stop_after notices gone w o)
  unfolding stop_after
  stop_after-IsFine w none v = tt
  stop_after-IsFine w (some chan) v =
      stop-IsSound (record w { shutdown = chan })
        (record { valid = v.valid; unstarted = v.unstarted; quiet = v.quiet })

  pub after_poll-IsSound :
      (w : World Net Chan) (o : Option Chan) → IsSound w → IsSound (after_poll notices gone w o)
  unfolding after_poll
  after_poll-IsSound w none v = v
  after_poll-IsSound w (some chan) v =
      let s =
        stop-IsSound (record w { shutdown = chan })
          (record { valid = v.valid; unstarted = v.unstarted; quiet = v.quiet }) in
      record { valid = s.valid; unstarted = s.unstarted; quiet = s.quiet }

  dispatch-Idle :
      (c : ExecHandleCoordinator Net) (call : Net → Net × Unit {0}) (h : Net)
      → (call gone).0 ≡ gone
      → Idle c
      → get_elem? c.handles (following c) ≡ some h
      → (set c.handles (following c) (call h).0 ≡ gone ∷ []) × (following c ≡ 0)
  dispatch-Idle c call h still (hs, z) found =
      let only : some gone ≡ some h = rw (hs, z) at found in
      let same : gone ≡ h = cc in rw (hs, z, ← same) (ap (λ n. n ∷ []) still, refl)

  -- A call through the coordinator that leaves a handle as it is whose executor is gone.
  pub dispatch-IsSound :
      (w : World Net Chan) (call : Net → Net × Unit {0})
      → (call gone).0 ≡ gone
      → IsSound w
      → (c : ExecHandleCoordinator Net) × (dispatch w.executor call ≡ some (c, tt))
        × IsSound (record w { executor = c })
  dispatch-IsSound w call still v =
      let (h, found, e, v') = dispatch_lem w.executor call v.valid in
      let i = following w.executor in
      let c = record w.executor { handles = set w.executor.handles i (call h).0; index = i } in
      (
        c,
        e,
        record {
          valid = v';
          unstarted = λ s. dispatch-Idle w.executor call h still (v.unstarted s) found;
          quiet = v.quiet;
        },
      )
