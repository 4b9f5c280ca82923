-- ===== src/EventBus/Delayed.antt =====
-- imputio-utils/src/event_bus.rs under the feature delay-delete: what the clean-up removes, and how
-- many subscriptions one bus can grant.
use toy_io.Common.{
  ℕ, ◌+◌, ◌-◌, ◌≤◌, ◌≡◌, refl, ◌∙◌, true, Option, none, some, List, [], ◌∷◌, ◌++◌, arith,
  append-nil, append_assoc, contains, if◌then◌else◌, length, length-range_from,
  length-set_remove-lt,
}
use toy_io.EventBus.Protocol.{SubId, EventBusMessage, Answer, subscribed, ok}
use toy_io.EventBus.Lookup.{queue, queue-cleanup, poll-ids, batch_poll-ids}
use toy_io.EventBus.{
  EventBus, IterOrder, u16_max, new, subscribe, subscribe_at, unsubscribe, cleanup,
  push_to_event_queues, handle, run,
}

module _ {T : Type 0} where
  -- `unsubscribe` for each of the identifiers.
  unfoldable pub unsubscribe_each : EventBus T → List SubId → EventBus T
  unsubscribe_each bus [] = bus
  unsubscribe_each bus (id ∷ ids) = unsubscribe_each (unsubscribe true bus id) ids

  unsubscribe_each-fields :
      (ids : List SubId) (bus : EventBus T)
      → unsubscribe_each bus ids ≡ record bus { recycle = bus.recycle ++ ids }
  unfolding unsubscribe_each unsubscribe
  unsubscribe_each-fields [] bus = rw append-nil refl
  unsubscribe_each-fields (id ∷ ids) bus =
      unsubscribe_each-fields ids (unsubscribe true bus id) ∙ rw append_assoc refl

  -- The clean-up removes exactly the queues of the identifiers that were unsubscribed since the
  -- last one, whatever their order and number; every other queue stays as it was, and the list
  -- of identifiers to remove is empty afterwards.
  pub cleanup-unsubscribe_each :
      (bus : EventBus T) (ids : List SubId) (j : SubId)
      → bus.recycle ≡ []
      → let after = cleanup (unsubscribe_each bus ids) in
        (queue after j ≡ (if contains j ids then none else queue bus j)) × (after.recycle ≡ [])
  cleanup-unsubscribe_each bus ids j e =
      rw (unsubscribe_each-fields ids bus, e)
        (queue-cleanup (record bus { recycle = ids }) j, unfold cleanup in refl)

granted_by : {T : Type 0} → Answer T → ℕ
granted_by (subscribed (ok _)) = 1
granted_by _ = 0

module _ {T R : Type 0} where
  -- The number of subscriptions that the answers grant.
  pub granted : List (R × Answer T) → ℕ
  unfolding granted_by
  granted [] = 0
  granted ((_, a) ∷ out) = granted_by a + granted out

  granted-append :
      (out outs : List (R × Answer T)) → granted (out ++ outs) ≡ granted out + granted outs
  unfolding granted
  granted-append [] outs = omega arith
  granted-append ((_, a) ∷ out) outs = omega (arith, granted-append out outs)

  subscribe_at-granted :
      (bus : EventBus T) (o : Option SubId) (r : R)
      → ((id : SubId) → o ≡ some id → contains id bus.ids ≡ true)
      → granted ((r, subscribed (subscribe_at bus o).1) ∷ []) + length (subscribe_at bus o).0.ids
        ≤ length bus.ids
  unfolding granted subscribe_at
  subscribe_at-granted bus none r h = omega arith
  subscribe_at-granted bus (some id) r h =
      omega (arith, length-set_remove-lt id bus.ids (h id refl))

module _ {T R : Type 0} (order : IterOrder) where
  handle-granted :
      (bus : EventBus T) (m : EventBusMessage T R)
      → granted (handle true order bus m).1 + length (handle true order bus m).0.ids
        ≤ length bus.ids
  unfolding handle
  handle-granted bus (EventBusMessage.subscribe r) =
      unfold subscribe in
      subscribe_at-granted bus (order.first bus.ids) r (order.first-some bus.ids)
  handle-granted bus (EventBusMessage.unsubscribe id) = unfold granted unsubscribe in omega arith
  handle-granted bus (EventBusMessage.push_event e r) =
      unfold granted push_to_event_queues in omega arith
  handle-granted bus (EventBusMessage.poll id r) =
      rw (poll-ids bus id) (unfold granted in omega arith)
  handle-granted bus (EventBusMessage.batch_poll id r) =
      rw (batch_poll-ids bus id) (unfold granted in omega arith)
  handle-granted bus EventBusMessage.clean_up_bg_task = unfold granted cleanup in omega arith

  run-granted :
      (ms : List (EventBusMessage T R)) (bus : EventBus T)
      → granted (run true order bus ms).1 + length (run true order bus ms).0.ids ≤ length bus.ids
  unfolding run
  run-granted [] bus = unfold granted in omega arith
  run-granted (m ∷ ms) bus =
      let (bus', out) = handle true order bus m in
      omega (
        arith,
        handle-granted bus m,
        run-granted ms bus',
        granted-append out (run true order bus' ms).1,
      )

  -- With the feature a bus grants at most 65534 subscriptions in its whole life, whatever is
  -- unsubscribed and cleaned up in between: no identifier ever becomes free again.
  pub run-granted-le :
      (ms : List (EventBusMessage T R)) → granted (run true order new ms).1 ≤ u16_max - 1
  run-granted-le ms = omega (arith, run-granted ms new, pool)
    where
      pool : length (new {T = T}).ids ≡ 65534
      pool = unfold new in length-range_from 1 65534
