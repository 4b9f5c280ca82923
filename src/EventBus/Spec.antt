-- ===== src/EventBus/Spec.antt =====
-- imputio-utils/src/event_bus.rs: the bus as its clients see it, the pending events of each
-- subscriber, and the steps that the messages may take on that view.
use mathlib.Core.Option
use toy_io.Common.{
  ◌≡◌, refl, true, false, Option, none, some, List, [], ◌∷◌, ◌++◌, arith, contains, if◌then◌else◌,
  ◌==◌, is_some, Option-cases, inl, inr,
}
use toy_io.Common.Dict.{lookup-insert}
use toy_io.EventBus.Protocol.{
  SubId, EventBusMessage, Answer, subscribed, pushed, polled, batch_polled, ok, err,
  resource_exhaustion,
}
use toy_io.EventBus.Lookup.{
  queue, queue-subscribe_at, queue-unsubscribe_now, queue-push, poll-none, poll-some,
  batch_poll-none, batch_poll-some, rest_of, front_of,
}
use toy_io.EventBus.Ids.{in_pool, IsValid, IsComplete}
use toy_io.EventBus.{
  EventBus, IterOrder, subscribe, subscribe_at, unsubscribe, push_to_event_queues, poll, batch_poll,
  handle,
}

-- The pending events of each subscriber, oldest first; `none` for an identifier without a queue.
abbrev pub View : Type 0 → Type 0
View T = SubId → Option (List T)

abbrev pub assign : {T : Type 0} → View T → SubId → Option (List T) → View T
assign v id q j = if id == j then q else v j

-- `Step v w m out`: from the view `v` the message `m` may lead to `w` with the answers `out`.
-- The identifier that a subscription gets is open, and it gets none only if all are taken.
pub data Step {T R : Type 0} (v w : View T)
    : EventBusMessage T R → List (R × Answer T) → Type 0 where
  subscribes :
      (r : R) (id : SubId)
      → in_pool id ≡ true
      → v id ≡ none
      → ((j : SubId) → w j ≡ assign v id (some []) j)
      → Step v w (EventBusMessage.subscribe r) ((r, subscribed (ok id)) ∷ [])
  exhausted :
      (r : R)
      → ((id : SubId) → in_pool id ≡ true → is_some (v id) ≡ true)
      → ((j : SubId) → w j ≡ v j)
      → Step v w (EventBusMessage.subscribe r) ((r, subscribed (err resource_exhaustion)) ∷ [])
  unsubscribes :
      (id : SubId)
      → ((j : SubId) → w j ≡ assign v id none j)
      → Step v w (EventBusMessage.unsubscribe id) []
  publishes :
      (event : T) (r : R)
      → ((j : SubId) → w j ≡ Option.map (λ q. q ++ event ∷ []) (v j))
      → Step v w (EventBusMessage.push_event event r) ((r, pushed (ok tt)) ∷ [])
  polls :
      (id : SubId) (r : R) (q : List T)
      → v id ≡ some q
      → ((j : SubId) → w j ≡ assign v id (some (rest_of q)) j)
      → Step v w (EventBusMessage.poll id r) ((r, polled (ok (front_of q))) ∷ [])
  polls_unknown :
      (id : SubId) (r : R)
      → v id ≡ none
      → ((j : SubId) → w j ≡ v j)
      → Step v w (EventBusMessage.poll id r) ((r, polled (ok none)) ∷ [])
  batch_polls :
      (id : SubId) (r : R) (q : List T)
      → v id ≡ some q
      → ((j : SubId) → w j ≡ assign v id (some []) j)
      → Step v w (EventBusMessage.batch_poll id r) ((r, batch_polled (ok q)) ∷ [])
  batch_polls_unknown :
      (id : SubId) (r : R)
      → v id ≡ none
      → ((j : SubId) → w j ≡ v j)
      → Step v w (EventBusMessage.batch_poll id r) ((r, batch_polled (ok [])) ∷ [])
  idles : ((j : SubId) → w j ≡ v j) → Step v w EventBusMessage.clean_up_bg_task []

module _ {T R : Type 0} (bus : EventBus T) where
  subscribe_at-Step :
      (o : Option SubId) (r : R)
      → ((id : SubId) → o ≡ some id → contains id bus.ids ≡ true)
      → (o ≡ none → bus.ids ≡ [])
      → IsValid bus
      → IsComplete bus
      → Step
          (queue bus)
          (queue (subscribe_at bus o).0)
          (EventBusMessage.subscribe r)
          ((r, subscribed (subscribe_at bus o).1) ∷ [])
  unfolding subscribe_at contains
  subscribe_at-Step none r free empty v c =
      exhausted r (λ id h. ground (arith, c id h, none_left id)) (λ j. refl)
    where
      none_left : (id : SubId) → contains id bus.ids ≡ false
      none_left id = rw (empty refl) refl
  subscribe_at-Step (some id) r free empty v c =
      subscribes r id (v.free id (free id refl)).0 (ground (arith, v.free id (free id refl)))
        (queue-subscribe_at bus id)

  poll-Step :
      (id : SubId) (r : R)
      → Step
          (queue bus)
          (queue (poll bus id).0)
          (EventBusMessage.poll id r)
          ((r, polled (poll bus id).1) ∷ [])
  poll-Step id r = elim (Option-cases (queue bus id)) [
    | inl e ↦ rw (poll-none bus id e) (polls_unknown id r e (λ j. refl))
    | inr (q, e) ↦
        rw (poll-some bus id q e)
          (polls id r q e (λ j. lookup-insert j id (rest_of q) bus.event_queues))
  ]

  batch_poll-Step :
      (id : SubId) (r : R)
      → Step
          (queue bus)
          (queue (batch_poll bus id).0)
          (EventBusMessage.batch_poll id r)
          ((r, batch_polled (batch_poll bus id).1) ∷ [])
  batch_poll-Step id r = elim (Option-cases (queue bus id)) [
    | inl e ↦ rw (batch_poll-none bus id e) (batch_polls_unknown id r e (λ j. refl))
    | inr (q, e) ↦
        rw (batch_poll-some bus id q e)
          (batch_polls id r q e (λ j. lookup-insert j id [] bus.event_queues))
  ]

  -- Without the feature delay-delete the actor refines that machine: on every message, from a state
  -- whose identifiers are in order, the queues change and the answers are sent as a step allows.
  pub handle-Step :
      (order : IterOrder) (m : EventBusMessage T R)
      → IsValid bus
      → IsComplete bus
      → Step (queue bus) (queue (handle false order bus m).0) m (handle false order bus m).1
  unfolding handle push_to_event_queues
  handle-Step order (EventBusMessage.subscribe r) v c =
      unfold subscribe in
      subscribe_at-Step (order.first bus.ids) r (order.first-some bus.ids)
        (order.first-none bus.ids) v c
  handle-Step order (EventBusMessage.unsubscribe id) v c =
      unfold unsubscribe in unsubscribes id (queue-unsubscribe_now bus id)
  handle-Step order (EventBusMessage.push_event event r) v c =
      publishes event r (queue-push bus event)
  handle-Step order (EventBusMessage.poll id r) v c = poll-Step id r
  handle-Step order (EventBusMessage.batch_poll id r) v c = batch_poll-Step id r
  handle-Step order EventBusMessage.clean_up_bg_task v c = idles (λ j. refl)
