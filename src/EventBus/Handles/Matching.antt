-- ===== src/EventBus/Handles/Matching.antt =====
-- imputio-utils/src/event_bus.rs: `event_poll_matcher` of a subscriber, with its handle and the
-- actor that serves it, while no other client has its turn.
use toy_io.Common.{
  ℕ, zero, suc, ◌<◌, ◌≡◌, refl, ◌∙◌, ap, Bool, true, false, Option, none, some, List, [], ◌∷◌,
  arith, get_elem?,
}
use toy_io.Common.Dict.{lookup-insert}
use toy_io.Flume.{Link, IsServed, request-answered}
use toy_io.EventBus.Protocol.{EventBusMessage, Answer, polled, Result, ok}
use toy_io.EventBus.Lookup.{queue, poll-some, front_of, rest_of}
use toy_io.EventBus.Handles
use toy_io.EventBus.Handles.{SubHandle}
use toy_io.EventBus.Matcher.{poll_matcher, event_handler, Notify, notices_of, poll_matcher_ends}
use toy_io.EventBus.{EventBus, IterOrder, handle}

module _ {T R : Type 0} (link : Link (EventBusMessage T R) R (Answer T)) where
  -- The network after `n` polls.
  unfoldable pub after_polls : link.Net → SubHandle → ℕ → link.Net
  after_polls net h zero = net
  after_polls net h (suc n) = (Handles.poll link (after_polls net h n) h).0

  -- `event_poll_matcher`: the polling loop over `SubHandle::poll`.
  unfoldable pub event_poll_matcher :
      {S : Type 0}
      → ℕ
      → link.Net
      → SubHandle
      → (T → Bool)
      → Option (Notify S)
      → Option (ℕ × List S × Result (Unit {0}))
  unfolding after_polls
  event_poll_matcher fuel net h matcher notify =
      poll_matcher fuel (λ n. (Handles.poll link (after_polls net h n) h).1) (event_handler matcher)
        notify

module _ {T : Type 0} where
  abbrev pub drop : ℕ → List T → List T
  drop zero q = q
  drop (suc n) [] = []
  drop (suc n) (x ∷ q) = drop n q

  front_of-drop : (n : ℕ) (q : List T) → front_of (drop n q) ≡ get_elem? q n
  front_of-drop zero [] = refl
  front_of-drop zero (x ∷ q) = refl
  front_of-drop (suc n) [] = refl
  front_of-drop (suc n) (x ∷ q) = front_of-drop n q

  rest_of-drop : (n : ℕ) (q : List T) → rest_of (drop n q) ≡ drop (suc n) q
  rest_of-drop zero [] = refl
  rest_of-drop zero (x ∷ q) = refl
  rest_of-drop (suc n) [] = refl
  rest_of-drop (suc n) (x ∷ q) = rest_of-drop n q

module _ {T R : Type 0} (link : Link (EventBusMessage T R) R (Answer T)) (delay_delete : Bool)
    (order : IterOrder) (served : IsServed link (handle {T = T} {R = R} delay_delete order)) where
  open served use {actor}

  pub poll_lem :
      (net : link.Net) (bus : EventBus T) (h : SubHandle) (q : List T)
      → actor net ≡ some bus
      → queue bus h.id ≡ some q
      → let (after, r) = Handles.poll link net h in
        (r ≡ ok (front_of q))
        × (bus' : EventBus T) × (actor after ≡ some bus')
        × (queue bus' h.id ≡ some (rest_of q))
  unfolding Handles.poll handle
  poll_lem net bus h q e has =
      let step = poll-some bus h.id q has in
      let (got, after) =
        request-answered link (handle delay_delete order) served net (EventBusMessage.poll h.id) bus
          (polled (ok (front_of q))) e (λ r. rw step refl) in
      (
        rw got refl,
        _,
        after,
        rw step (lookup-insert h.id h.id (rest_of q) bus.event_queues ∙ (ground arith)),
      )

  -- The polls give the events of the queue, one after the other, and then none.
  polls_lem :
      (net : link.Net) (bus : EventBus T) (h : SubHandle) (q : List T) (n : ℕ)
      → actor net ≡ some bus
      → queue bus h.id ≡ some q
      → ((Handles.poll link (after_polls link net h n) h).1 ≡ ok (get_elem? q n))
        × (bus' : EventBus T) × (actor (after_polls link net h n) ≡ some bus')
        × (queue bus' h.id ≡ some (drop n q))
  unfolding after_polls
  polls_lem net bus h q zero e has =
      ((poll_lem net bus h q e has).0 ∙ ap (λ o. ok o) (front_of-drop zero q), bus, e, has)
  polls_lem net bus h q (suc n) e has =
      let (_, bus₁, e₁, has₁) = polls_lem net bus h q n e has in
      let (_, bus₂, e₂, has₂) = poll_lem (after_polls link net h n) bus₁ h (drop n q) e₁ has₁ in
      let has₃ : queue bus₂ h.id ≡ some (drop (suc n) q) =
        has₂ ∙ ap (λ l. some l) (rest_of-drop n q) in
      let next = poll_lem (after_polls link net h (suc n)) bus₂ h (drop (suc n) q) e₂ has₃ in
      (next.0 ∙ ap (λ o. ok o) (front_of-drop (suc n) q), bus₂, e₂, has₃)

  -- The matcher finds an event that waits: if the event at the index `k` of the subscriber's queue
  -- is the first that it accepts, then it ends after `k + 1` polls with `Ok(())`, its notice is sent
  -- once if the receiver is still there, and the events behind that one are still in the queue. The
  -- channel of the notice must have room. Any fuel above `k` is enough.
  pub event_poll_matcher_finds :
      {S : Type 0} (net : link.Net) (bus : EventBus T) (h : SubHandle) (q : List T)
      (matcher : T → Bool) (notify : Option (Notify S)) (fuel k : ℕ) (event : T)
      → actor net ≡ some bus
      → queue bus h.id ≡ some q
      → k < fuel
      → ((i : ℕ) (x : T) → i < k → get_elem? q i ≡ some x → matcher x ≡ false)
      → get_elem? q k ≡ some event
      → matcher event ≡ true
      → (event_poll_matcher link fuel net h matcher notify ≡ some (suc k, notices_of notify, ok tt))
        × (bus' : EventBus T) × (actor (after_polls link net h (suc k)) ≡ some bus')
        × (queue bus' h.id ≡ some (drop (suc k) q))
  unfolding event_poll_matcher event_handler
  event_poll_matcher_finds net bus h q matcher notify fuel k event e has enough before now match =
      let last = polls_lem net bus h q (suc k) e has in
      (
        poll_matcher_ends (λ n. (Handles.poll link (after_polls link net h n) h).1)
            (event_handler matcher) notify fuel k enough
            (λ i lt.
              rw (polls_lem net bus h q i e has).0
                (refuses (get_elem? q i) (λ x found. before i x lt found)))
            (rw ((polls_lem net bus h q k e has).0, now, event_handler, match) refl),
        last.1,
        last.2,
        last.3,
      )
    where
      refuses :
          (o : Option T)
          → ((x : T) → o ≡ some x → matcher x ≡ false)
          → event_handler matcher o ≡ false
      refuses none r = refl
      refuses (some x) r = rw (r x refl) refl
