-- ===== src/EventBus/Handles.antt =====
-- imputio-utils/src/event_bus.rs: the handles `EventBusHandle`, `PubHandle` and `SubHandle`. Each
-- of their methods sends a message and waits for the reply. `tx` is the same link in all handles,
-- so it is a parameter, and a `SubHandle` is its identifier.
pub mod Service
pub mod CleanupTask
pub mod Matching
pub mod Among
pub mod Apart
use toy_io.Common.{
  ℕ, ◌≡◌, refl, ◌++◌, Bool, Option, none, some, List, [], ◌∷◌, arith, if◌then◌else◌, ◌==◌,
}
use toy_io.Flume.{Link, Outcome, not_sent, not_answered, answered, request}
use toy_io.EventBus.Protocol.{
  SubId, EventBusMessage, Answer, subscribed, pushed, polled, batch_polled, Result, ok, err,
  channel_send_error, channel_rcv_error, null_subid,
}
use toy_io.EventBus.{EventBus, new}

pub record SubHandle : Type 0 where
  pub id : SubId

module _ {T : Type 0} where
  abbrev as_subscribed : Answer T → Option (Result SubId)
  as_subscribed (subscribed r) = some r
  as_subscribed _ = none

  abbrev as_pushed : Answer T → Option (Result (Unit {0}))
  as_pushed (pushed r) = some r
  as_pushed _ = none

  abbrev as_polled : Answer T → Option (Result (Option T))
  as_polled (polled r) = some r
  as_polled _ = none

  abbrev as_batch_polled : Answer T → Option (Result (List T))
  as_batch_polled (batch_polled r) = some r
  as_batch_polled _ = none

-- A reply channel carries one type of reply only, so the last case does not arise.
abbrev received_as : {A : Type 0} → Option (Result A) → Result A
received_as (some r) = r
received_as none = err channel_rcv_error

-- `send(..).map_err(..)?` and then `rx.recv_async().await?`.
abbrev collect : {A T : Type 0} → (Answer T → Option (Result A)) → Outcome (Answer T) → Result A
collect pick not_sent = err channel_send_error
collect pick not_answered = err channel_rcv_error
collect pick (answered a) = received_as (pick a)

abbrev as_handle : Result SubId → Result SubHandle
as_handle (ok id) = ok (record { id = id })
as_handle (err e) = err e

-- `EventBusHandle::new_with_handle` makes the actor, which runs on a thread of its own, and a
-- handle whose identifier is not subscribed.
pub new_with_handle : {T : Type 0} → EventBus T × SubId
new_with_handle = (new, null_subid)

module _ {T R : Type 0} (link : Link (EventBusMessage T R) R (Answer T)) where
  open link use {Net, send}

  -- `EventBusHandle::get_subscriber`
  pub get_subscriber : Net → Net × Result SubHandle
  get_subscriber net =
      let (net', o) = request link net EventBusMessage.subscribe in
      (net', as_handle (collect as_subscribed o))

  -- `SubHandle::subscribe`: a new subscription, whatever that of this handle is.
  pub subscribe : Net → SubHandle → Net × Result SubHandle
  subscribe net h =
      let (net', o) = request link net EventBusMessage.subscribe in
      (net', as_handle (collect as_subscribed o))

  -- A message without a reply.
  abbrev tell : Net → Option Net → Net × Result (Unit {0})
  tell net none = (net, err channel_send_error)
  tell net (some net') = (net', ok tt)

  -- `SubHandle::unsubscribe`: the identifier is the caller's, not the handle's.
  unfoldable pub unsubscribe : Net → SubHandle → SubId → Net × Result (Unit {0})
  unsubscribe net h id = tell net (send net (EventBusMessage.unsubscribe id))

  pub poll : Net → SubHandle → Net × Result (Option T)
  poll net h =
      let (net', o) = request link net (EventBusMessage.poll h.id) in (net', collect as_polled o)

  pub batch_poll : Net → SubHandle → Net × Result (List T)
  batch_poll net h =
      let (net', o) = request link net (EventBusMessage.batch_poll h.id) in
      (net', collect as_batch_polled o)

  -- `PubHandle::publish_event`
  pub publish_event : Net → T → Net × Result (Unit {0})
  publish_event net event =
      let (net', o) = request link net (EventBusMessage.push_event event) in
      (net', collect as_pushed o)

  -- `Drop for SubHandle`: an error is logged and ignored.
  pub drop : Net → SubHandle → Net
  drop net h =
      if h.id == null_subid then net else (tell net (send net (EventBusMessage.unsubscribe h.id))).0

  -- `EventBusHandle::cleanup`: an error is logged and ignored.
  unfoldable pub cleanup : Net → Net
  cleanup net = (tell net (send net EventBusMessage.clean_up_bg_task)).0

  -- A publisher that publishes each event of a list, one after the other.
  unfoldable pub publish_each : Net → List T → Net
  publish_each net [] = net
  publish_each net (event ∷ events) = publish_each (publish_event net event).0 events
