-- ===== src/EventBus.antt =====
-- imputio-utils/src/event_bus.rs: the actor `EventBus`, its state, its methods and its loop.
-- `delay_delete` is the cargo feature of that name. A `HashMap` is a `Dict`, a `HashSet` a list of
-- its elements, a `VecDeque` a list with its front at the head.
pub mod Protocol
pub mod Lookup
pub mod Ids
pub mod Spec
pub mod Delivery
pub mod Delayed
pub mod Stale
pub mod SameView
pub mod Commute
pub mod Handles
pub mod Matcher
pub mod Samples
mod Tests
use toy_io.Common.{
  ℕ, ◌≡◌, Bool, true, false, Option, none, some, List, [], ◌∷◌, ◌++◌, range_from, contains,
  set_insert, set_remove, ◌-◌, if◌then◌else◌,
}
use toy_io.Common.Dict.{Dict, lookup, insert, remove, for_each}
use Protocol.{
  EventBusError, resource_exhaustion, Result, ok, err, SubId, EventBusMessage, Answer, subscribed,
  pushed, polled, batch_polled,
}

-- The order in which a `HashSet` is iterated is not specified: `first` is the choice it makes.
pub record IterOrder : Type 0 where
  pub first : List SubId → Option SubId
  pub first-none : (ids : List SubId) → first ids ≡ none → ids ≡ []
  pub first-some : (ids : List SubId) (id : SubId) → first ids ≡ some id → contains id ids ≡ true

pub record EventBus (T : Type 0) : Type 0 where
  pub event_queues : Dict (List T)
  pub ids : List SubId
  pub recycle : List SubId

abbrev pub u16_max : ℕ
u16_max = 65535

module _ {T : Type 0} where
  -- `(1..u16::MAX)`, the end excluded.
  pub new : EventBus T
  new = record { event_queues = []; ids = range_from 1 (u16_max - 1); recycle = [] }

  pub subscribe_at : EventBus T → Option SubId → EventBus T × Result SubId
  subscribe_at bus none = (bus, err resource_exhaustion)
  subscribe_at bus (some id) = (
    record bus { event_queues = insert id [] bus.event_queues; ids = set_remove id bus.ids },
    ok id,
  )

  pub subscribe : IterOrder → EventBus T → EventBus T × Result SubId
  unfolding subscribe_at
  subscribe order bus = subscribe_at bus (order.first bus.ids)

  -- Without the feature: `remove_entry`, and the identifier is free again if it had a queue.
  pub unsubscribe_now : EventBus T → SubId → EventBus T
  unsubscribe_now bus id = elim (lookup id bus.event_queues) [
    | none ↦ bus
    | some _ ↦ record bus { event_queues = remove id bus.event_queues; ids = set_insert id bus.ids }
  ]

  -- With the feature: the identifier is only listed for the clean-up.
  pub unsubscribe_later : EventBus T → SubId → EventBus T
  unsubscribe_later bus id = record bus { recycle = bus.recycle ++ id ∷ [] }

  pub unsubscribe : Bool → EventBus T → SubId → EventBus T
  unfolding unsubscribe_now unsubscribe_later
  unsubscribe delay_delete bus id =
      if delay_delete then unsubscribe_later bus id else unsubscribe_now bus id

  pub remove_all : List SubId → Dict (List T) → Dict (List T)
  remove_all [] queues = queues
  remove_all (id ∷ ids) queues = remove_all ids (remove id queues)

  pub cleanup : EventBus T → EventBus T
  cleanup bus = record bus { event_queues = remove_all bus.recycle bus.event_queues; recycle = [] }

  pub push_to_event_queues : EventBus T → T → EventBus T × Result (Unit {0})
  push_to_event_queues bus event =
      (record bus { event_queues = for_each (λ v. v ++ event ∷ []) bus.event_queues }, ok tt)

  -- `VecDeque::pop_front`
  pub pop_front : List T → List T × Option T
  pop_front [] = ([], none)
  pop_front (event ∷ events) = (events, some event)

  pub poll : EventBus T → SubId → EventBus T × Result (Option T)
  unfolding pop_front
  poll bus id = elim (lookup id bus.event_queues) [
    | none ↦ (bus, ok none)
    | some item ↦
        let (rest, event) = pop_front item in
        (record bus { event_queues = insert id rest bus.event_queues }, ok event)
  ]

  -- `while let Some(i) = item.pop_front() { items.push(i); }`: the queue that is left, and `items`.
  pub drain : List T → List T → List T × List T
  drain [] items = ([], items)
  drain (i ∷ item) items = drain item (items ++ i ∷ [])

  pub batch_poll : EventBus T → SubId → EventBus T × Result (List T)
  unfolding drain
  batch_poll bus id = elim (lookup id bus.event_queues) [
    | none ↦ (bus, ok [])
    | some item ↦
        let (rest, items) = drain item [] in
        (record bus { event_queues = insert id rest bus.event_queues }, ok items)
  ]

module _ {T R : Type 0} (delay_delete : Bool) (order : IterOrder) where
  -- The `match` in `run`: the new state, and what is sent to which reply sender. A reply that
  -- cannot be sent is ignored by the source (`.ok()`), so the state does not depend on it.
  pub handle : EventBus T → EventBusMessage T R → EventBus T × List (R × Answer T)
  handle bus (EventBusMessage.subscribe reply) =
      let (bus', r) = subscribe order bus in (bus', (reply, subscribed r) ∷ [])
  handle bus (EventBusMessage.unsubscribe id) = (unsubscribe delay_delete bus id, [])
  handle bus (EventBusMessage.push_event event reply) =
      let (bus', r) = push_to_event_queues bus event in (bus', (reply, pushed r) ∷ [])
  handle bus (EventBusMessage.poll id reply) =
      let (bus', r) = poll bus id in (bus', (reply, polled r) ∷ [])
  handle bus (EventBusMessage.batch_poll id reply) =
      let (bus', r) = batch_poll bus id in (bus', (reply, batch_polled r) ∷ [])
  handle bus EventBusMessage.clean_up_bg_task = (if delay_delete then cleanup bus else bus, [])

  -- The loop of `run` over the messages that `recv_async` gives until all senders are gone.
  pub run : EventBus T → List (EventBusMessage T R) → EventBus T × List (R × Answer T)
  run bus [] = (bus, [])
  run bus (event ∷ events) =
      let (bus', out) = handle bus event in
      let (last, outs) = run bus' events in (last, out ++ outs)
