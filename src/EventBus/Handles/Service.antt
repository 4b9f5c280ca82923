-- ===== src/EventBus/Handles/Service.antt =====
-- imputio-utils/src/event_bus.rs: the handles together with the actor that serves them, as one
-- client sees them that makes its calls one after the other.
use toy_io.Common.{
  ◌≡◌, refl, sym, ◌∙◌, ap, Bool, true, false, Option, none, some, List, [], ◌∷◌, ◌++◌, append_assoc,
  append-nil, arith, ◌⊎◌, inl, inr, ◌≢◌, contains, if◌then◌else◌, ◌==◌,
}
use toy_io.Common.Dict.{lookup-insert}
use toy_io.Flume.{Link, IsServed, request-gone, request-answered}
use toy_io.EventBus.Protocol.{
  SubId, EventBusMessage, Answer, subscribed, pushed, batch_polled, Result, ok, err,
  channel_send_error, resource_exhaustion, null_subid,
}
use toy_io.EventBus.Lookup.{
  queue, queue-push, queue-subscribe_at, batch_poll-some, queue-unsubscribe_now,
  contains-unsubscribe_now,
}
use toy_io.EventBus.Ids.{in_pool, IsValid, subscribe_at-IsValid}
use toy_io.EventBus.Handles
use toy_io.EventBus.Handles.{SubHandle}
use toy_io.EventBus.{EventBus, IterOrder, handle, push_to_event_queues}
use toy_io.EventBus

module _ {T R : Type 0} (link : Link (EventBusMessage T R) R (Answer T)) (delay_delete : Bool)
    (order : IterOrder) (served : IsServed link (handle {T = T} {R = R} delay_delete order)) where
  open served use {actor}

  publish_event_lem :
      (net : link.Net) (event : T) (bus : EventBus T)
      → actor net ≡ some bus
      → let (after, r) = Handles.publish_event link net event in
        (r ≡ ok tt) × (actor after ≡ some (push_to_event_queues bus event).0)
  unfolding Handles.publish_event handle push_to_event_queues
  publish_event_lem net event bus e =
      let (got, last) =
        request-answered link (handle delay_delete order) served net
          (EventBusMessage.push_event event) bus (pushed (ok tt)) e (λ r. refl) in
      (rw got refl, last)

  pub publish_each_lem :
      (events : List T) (net : link.Net) (bus : EventBus T) (id : SubId) (q : List T)
      → actor net ≡ some bus
      → queue bus id ≡ some q
      → (bus' : EventBus T) × (actor (Handles.publish_each link net events) ≡ some bus')
        × (queue bus' id ≡ some (q ++ events))
  unfolding Handles.publish_each
  publish_each_lem [] net bus id q e h = (bus, e, h ∙ ap some (sym (append-nil q)))
  publish_each_lem (event ∷ events) net bus id q e h =
      let (bus', last, has) =
        publish_each_lem events (Handles.publish_event link net event).0
          (push_to_event_queues bus event).0 id (q ++ event ∷ [])
          (publish_event_lem net event bus e).1 (queue-push bus event id ∙ rw h refl) in
      (bus', last, has ∙ ap some (append_assoc q (event ∷ []) events))

  -- A subscriber that polls for a batch after a publisher has published some events gets the events
  -- that were pending before, and then those, in order; and its queue is then empty.
  pub batch_poll-publish_each :
      (net : link.Net) (bus : EventBus T) (h : SubHandle) (q events : List T)
      → actor net ≡ some bus
      → queue bus h.id ≡ some q
      → let (after, r) = Handles.batch_poll link (Handles.publish_each link net events) h in
        (r ≡ ok (q ++ events))
        × (bus' : EventBus T) × (actor after ≡ some bus')
        × (queue bus' h.id ≡ some [])
  unfolding Handles.batch_poll handle
  batch_poll-publish_each net bus h q events e has =
      let (bus', last, has') = publish_each_lem events net bus h.id q e has in
      let step = batch_poll-some bus' h.id (q ++ events) has' in
      let (got, after) =
        request-answered link (handle delay_delete order) served
          (Handles.publish_each link net events) (EventBusMessage.batch_poll h.id) bus'
          (batch_polled (ok (q ++ events))) last (λ r. rw step refl) in
      (
        rw got refl,
        _,
        after,
        rw step (lookup-insert h.id h.id [] bus'.event_queues ∙ (ground arith)),
      )

  -- When the actor is gone, every method of a handle that waits for a reply reports that its
  -- message could not be sent.
  pub handles_gone :
      (net : link.Net) (h : SubHandle) (event : T)
      → actor net ≡ none
      → ((Handles.get_subscriber link net).1 ≡ err channel_send_error)
        × ((Handles.poll link net h).1 ≡ err channel_send_error)
        × ((Handles.batch_poll link net h).1 ≡ err channel_send_error)
        × ((Handles.publish_event link net event).1 ≡ err channel_send_error)
  unfolding Handles.get_subscriber Handles.poll Handles.batch_poll Handles.publish_event
  handles_gone net h event e =
      let gone = λ (m : R → EventBusMessage T R).
        request-gone link (handle delay_delete order) served net m e in
      (
        rw (gone EventBusMessage.subscribe) refl,
        rw (gone (EventBusMessage.poll h.id)) refl,
        rw (gone (EventBusMessage.batch_poll h.id)) refl,
        rw (gone (EventBusMessage.push_event event)) refl,
      )

  -- The two ends of a subscription.
  abbrev pub Subscribed : EventBus T → link.Net × Result SubHandle → Type 0
  Subscribed bus (after, r) =
      ((r ≡ err resource_exhaustion) × (bus.ids ≡ []) × (actor after ≡ some bus))
      ⊎ ((h : SubHandle) × (r ≡ ok h)
          × (in_pool h.id ≡ true)
          × (queue bus h.id ≡ none)
          × (bus' : EventBus T) × (actor after ≡ some bus')
          × (queue bus' h.id ≡ some [])
          × IsValid bus'
          × ((j : SubId) → h.id ≢ j → queue bus' j ≡ queue bus j))

  get_subscriber_at :
      (net : link.Net) (bus : EventBus T) (o : Option SubId)
      → order.first bus.ids ≡ o
      → actor net ≡ some bus
      → IsValid bus
      → Subscribed bus (Handles.get_subscriber link net)
  unfolding Handles.get_subscriber handle EventBus.subscribe
  get_subscriber_at net bus none f e v =
      let (got, after) =
        request-answered link (handle delay_delete order) served net EventBusMessage.subscribe bus
          (subscribed (EventBus.subscribe_at bus none).1) e (λ r. rw f refl) in
      rw got
        (unfold EventBus.subscribe_at in inl (refl, order.first-none bus.ids f, after ∙ rw f refl))
  get_subscriber_at net bus (some id) f e v =
      let (got, after) =
        request-answered link (handle delay_delete order) served net EventBusMessage.subscribe bus
          (subscribed (EventBus.subscribe_at bus (some id)).1) e (λ r. rw f refl) in
      let (pool, fresh) = v.free id (order.first-some bus.ids id f) in
      rw got (
        inr (
          record { id = id },
          unfold EventBus.subscribe_at in refl,
          pool,
          ground arith,
          (EventBus.subscribe_at bus (some id)).0,
          after ∙ rw f refl,
          queue-subscribe_at bus id id ∙ (ground arith),
          subscribe_at-IsValid bus (some id) (λ j same. order.first-some bus.ids j (f ∙ same)) v,
          λ j ne. queue-subscribe_at bus id j ∙ (ground (arith, ne)),
        ))

  -- A subscription through a handle, while the identifiers of the bus are in order: if no
  -- identifier is free it reports resource exhaustion and changes nothing, and otherwise it returns
  -- a handle whose identifier is from the pool, had no queue, and now has an empty one; the
  -- identifiers are still in order, and all other subscribers keep their queues.
  pub get_subscriber_lem :
      (net : link.Net) (bus : EventBus T)
      → actor net ≡ some bus
      → IsValid bus
      → Subscribed bus (Handles.get_subscriber link net)
  get_subscriber_lem net bus = get_subscriber_at net bus (order.first bus.ids) refl

module _ {T R : Type 0} (link : Link (EventBusMessage T R) R (Answer T)) (order : IterOrder)
    (served : IsServed link (handle {T = T} {R = R} false order)) where
  open served use {actor, send-silent}

  drop-null : (net : link.Net) (h : SubHandle) → h.id ≡ null_subid → Handles.drop link net h ≡ net
  unfolding Handles.drop
  drop-null net h z = rw (z, Handles.drop) refl

  -- Without the feature delay-delete, dropping the handle of a subscriber removes its queue and
  -- frees its identifier; every other subscriber keeps its queue.
  pub drop_lem :
      (net : link.Net) (bus : EventBus T) (h : SubHandle) (q : List T)
      → actor net ≡ some bus
      → queue bus h.id ≡ some q
      → h.id ≢ null_subid
      → (bus' : EventBus T) × (actor (Handles.drop link net h) ≡ some bus')
        × (contains h.id bus'.ids ≡ true)
        × ((j : SubId) → queue bus' j ≡ (if h.id == j then none else queue bus j))
  unfolding Handles.drop handle EventBus.unsubscribe
  drop_lem net bus h q e has nz =
      let (net', sent, last) = send-silent net (EventBusMessage.unsubscribe h.id) bus e refl in
      let nz' : (h.id == null_subid) ≡ false = ground arith in
      (
        EventBus.unsubscribe_now bus h.id,
        rw (nz', sent) last,
        contains-unsubscribe_now bus h.id h.id ∙ rw has (ground arith),
        queue-unsubscribe_now bus h.id,
      )
