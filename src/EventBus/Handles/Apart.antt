-- ===== src/EventBus/Handles/Apart.antt =====
-- imputio-utils/src/event_bus.rs: the polls of one subscriber leave the queue of another alone.
use toy_io.Common.{ℕ, zero, suc, ◌≡◌, ◌≢◌, refl, sym, ◌∙◌, subst, Bool, some, List, ◌++◌, arith}
use mathlib.Core.Option.{some-injective}
use toy_io.Common.Dict.{lookup-insert}
use toy_io.Flume.{Link, IsServed, request-answered}
use toy_io.EventBus.Protocol.{EventBusMessage, Answer, polled, ok}
use toy_io.EventBus.Lookup.{queue, poll-some, front_of, rest_of}
use toy_io.EventBus.Handles
use toy_io.EventBus.Handles.{SubHandle}
use toy_io.EventBus.Handles.Matching.{poll_lem}
use toy_io.EventBus.Handles.Among.{after_turns, HasQueue}
use toy_io.EventBus.{IterOrder, handle}

module _ {T R : Type 0} (link : Link (EventBusMessage T R) R (Answer T)) (delay_delete : Bool)
    (order : IterOrder) (served : IsServed link (handle {T = T} {R = R} delay_delete order)) where
  open served use {actor}

  poll_other :
      (net : link.Net) (h j : SubHandle) (q q' : List T)
      → h.id ≢ j.id
      → HasQueue link delay_delete order served h net q
      → HasQueue link delay_delete order served j net q'
      → HasQueue link delay_delete order served j (Handles.poll link net h).0 q'
  unfolding Handles.poll handle
  poll_other net h j q q' ne (bus, e, has) (bus', e', has') =
      let same : bus' ≡ bus = some-injective bus' bus (sym e' ∙ e) in
      let step = poll-some bus h.id q has in
      let (_, after) =
        request-answered link (handle delay_delete order) served net (EventBusMessage.poll h.id) bus
          (polled (ok (front_of q))) e (λ r. rw step refl) in
      (
        _,
        after,
        rw step (
            lookup-insert j.id h.id (rest_of q) bus.event_queues
            ∙ ground (arith, ne, subst (λ b. queue b j.id ≡ some q') same has')),
      )

  module _ (others : ℕ → link.Net → link.Net) (batch batch' : ℕ → List T) (h j : SubHandle)
      (apart : h.id ≢ j.id)
      (grows : (n : ℕ) (net : link.Net) (q : List T)
        → HasQueue link delay_delete order served h net q
        → HasQueue link delay_delete order served h (others n net) (q ++ batch n))
      (grows' : (n : ℕ) (net : link.Net) (q : List T)
        → HasQueue link delay_delete order served j net q
        → HasQueue link delay_delete order served j (others n net) (q ++ batch' n)) where
    -- After any number of polls of the one subscriber both are still subscribed.
    pub after_turns-HasQueue :
        (n : ℕ) (net : link.Net) (q q' : List T)
        → HasQueue link delay_delete order served h net q
        → HasQueue link delay_delete order served j net q'
        → (p : List T) × (p' : List T) × HasQueue link delay_delete order served h
            (after_turns link others net h n)
            p
          × HasQueue link delay_delete order served j (after_turns link others net h n) p'
    unfolding after_turns
    after_turns-HasQueue zero net q q' has has' = (q, q', has, has')
    after_turns-HasQueue (suc n) net q q' has has' =
        let (p, p', a, a') = after_turns-HasQueue n net q q' has has' in
        let before = after_turns link others net h n in
        let (bus, e, b) = grows n before p a in
        let (_, bus₁, e₁, left) =
          poll_lem link delay_delete order served (others n before) bus h (p ++ batch n) e b in
        (
          rest_of (p ++ batch n),
          p' ++ batch' n,
          (bus₁, e₁, left),
          poll_other (others n before) h j (p ++ batch n) (p' ++ batch' n) apart (bus, e, b)
              (grows' n before p' a'),
        )
