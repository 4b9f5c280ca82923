-- ===== src/EventBus/Handles/CleanupTask.antt =====
-- imputio-utils/src/event_bus.rs under the feature delay-delete: `cleanup_task`, whose thread calls
-- `cleanup` for ever. How long it sleeps in between is not modelled.
use toy_io.Common.{
  ℕ, zero, suc, ◌≡◌, refl, ◌∙◌, true, none, some, List, [], ◌∷◌, contains, if◌then◌else◌,
}
use toy_io.Flume.{Link, IsServed}
use toy_io.EventBus.Protocol.{SubId, EventBusMessage, Answer}
use toy_io.EventBus.Lookup.{queue, queue-cleanup}
use toy_io.EventBus.Delayed.{unsubscribe_each, cleanup-unsubscribe_each}
use toy_io.EventBus.Handles
use toy_io.EventBus.Handles.{SubHandle}
use toy_io.EventBus.{EventBus, IterOrder, handle}
use toy_io.EventBus

module _ {T R : Type 0} (link : Link (EventBusMessage T R) R (Answer T)) where
  -- The loop of `cleanup_task`, for a number of turns.
  unfoldable pub cleanup_task : ℕ → link.Net → link.Net
  cleanup_task zero net = net
  cleanup_task (suc turns) net = cleanup_task turns (Handles.cleanup link net)

  -- Subscribers that unsubscribe through a handle, one after the other.
  unfoldable pub unsubscribe_calls : link.Net → SubHandle → List SubId → link.Net
  unsubscribe_calls net h [] = net
  unsubscribe_calls net h (id ∷ ids) = unsubscribe_calls (Handles.unsubscribe link net h id).0 h ids

module _ {T R : Type 0} (link : Link (EventBusMessage T R) R (Answer T)) (order : IterOrder)
    (served : IsServed link (handle {T = T} {R = R} true order)) where
  open served use {actor, send-silent}

  actor-cleanup :
      (net : link.Net) (bus : EventBus T)
      → actor net ≡ some bus
      → actor (Handles.cleanup link net) ≡ some (EventBus.cleanup bus)
  unfolding Handles.cleanup handle
  actor-cleanup net bus e =
      let (net', sent, last) = send-silent net EventBusMessage.clean_up_bg_task bus e refl in
      rw (Handles.cleanup, sent) last

  actor-unsubscribe :
      (net : link.Net) (bus : EventBus T) (h : SubHandle) (id : SubId)
      → actor net ≡ some bus
      → actor (Handles.unsubscribe link net h id).0 ≡ some (EventBus.unsubscribe true bus id)
  unfolding Handles.unsubscribe handle
  actor-unsubscribe net bus h id e =
      let (net', sent, last) = send-silent net (EventBusMessage.unsubscribe id) bus e refl in
      rw (Handles.unsubscribe, sent) last

  actor-unsubscribe_calls :
      (ids : List SubId) (net : link.Net) (bus : EventBus T) (h : SubHandle)
      → actor net ≡ some bus
      → actor (unsubscribe_calls link net h ids) ≡ some (unsubscribe_each bus ids)
  unfolding unsubscribe_calls unsubscribe_each
  actor-unsubscribe_calls [] net bus h e = e
  actor-unsubscribe_calls (id ∷ ids) net bus h e =
      actor-unsubscribe_calls ids (Handles.unsubscribe link net h id).0
        (EventBus.unsubscribe true bus id) h (actor-unsubscribe net bus h id e)

  -- More turns change nothing.
  cleanup_task-again :
      (turns : ℕ) (net : link.Net) (bus : EventBus T)
      → actor net ≡ some bus
      → bus.recycle ≡ []
      → (bus' : EventBus T) × (actor (cleanup_task link turns net) ≡ some bus')
        × (bus'.recycle ≡ [])
        × ((j : SubId) → queue bus' j ≡ queue bus j)
  unfolding cleanup_task contains
  cleanup_task-again zero net bus e r = (bus, e, r, λ j. refl)
  cleanup_task-again (suc turns) net bus e r =
      let (bus', e', r', q) =
        cleanup_task-again turns (Handles.cleanup link net) (EventBus.cleanup bus)
          (actor-cleanup net bus e) (unfold EventBus.cleanup in refl) in
      (bus', e', r', λ j. q j ∙ queue-cleanup bus j ∙ rw r refl)

  -- After subscribers have unsubscribed, at least one turn of the clean-up removes exactly their
  -- queues, whatever their order and number, and more turns change nothing: every other queue stays
  -- as it was, and no identifier is left to remove. No other identifier may wait for its removal
  -- at the start, and the actor must be alive.
  pub cleanup_task_lem :
      (turns : ℕ) (net : link.Net) (bus : EventBus T) (h : SubHandle) (ids : List SubId)
      → actor net ≡ some bus
      → bus.recycle ≡ []
      → (bus' : EventBus T) × (actor
            (cleanup_task link (suc turns) (unsubscribe_calls link net h ids))
          ≡ some bus')
        × (bus'.recycle ≡ [])
        × ((j : SubId) → queue bus' j ≡ (if contains j ids then none else queue bus j))
  unfolding cleanup_task
  cleanup_task_lem turns net bus h ids e r =
      let net₁ = unsubscribe_calls link net h ids in
      let bus₁ = EventBus.cleanup (unsubscribe_each bus ids) in
      let (bus', e', r', q) =
        cleanup_task-again turns (Handles.cleanup link net₁) bus₁
          (actor-cleanup net₁ (unsubscribe_each bus ids) (actor-unsubscribe_calls ids net bus h e))
          (cleanup-unsubscribe_each bus ids 0 r).1 in
      (bus', e', r', λ j. q j ∙ (cleanup-unsubscribe_each bus ids j r).0)
