-- ===== src/EventBus/Ids.antt =====
-- imputio-utils/src/event_bus.rs: which identifiers are free and which have a queue.
use mathlib.Core.Bool.{not}
use toy_io.Common.{
  ℕ, ◌≡◌, refl, subst, Bool, true, false, ◌&&◌, ◌||◌, Option, none, some, List, [], ◌∷◌, arith,
  contains, contains-range_from, is_some, ltb, leb,
}
use toy_io.Common.Dict.{lookup}
use toy_io.EventBus.Protocol.{SubId, EventBusMessage}
use toy_io.EventBus.Lookup.{
  queue, queue-subscribe_at, contains-subscribe_at, queue-unsubscribe_now, contains-unsubscribe_now,
  queue-cleanup, queue-push, queue-poll, queue-batch_poll, poll-ids, batch_poll-ids,
}
use toy_io.EventBus.{
  EventBus, IterOrder, u16_max, new, subscribe, subscribe_at, unsubscribe_now, unsubscribe, cleanup,
  push_to_event_queues, poll, batch_poll, handle, run,
}

-- The identifiers that the bus hands out: `1..u16::MAX`.
abbrev pub in_pool : SubId → Bool
in_pool id = leb 1 id && ltb id u16_max

module _ {T : Type 0} where
  -- A free identifier is from the pool and has no queue; one that has a queue is from the pool.
  pub record IsValid (bus : EventBus T) : Type 0 where
    pub free :
        (id : SubId)
        → contains id bus.ids ≡ true
        → (in_pool id ≡ true) × (is_some (queue bus id) ≡ false)
    pub used : (id : SubId) → is_some (queue bus id) ≡ true → in_pool id ≡ true

  -- No identifier of the pool is lost: it is free, or it has a queue.
  abbrev pub IsComplete : EventBus T → Type 0
  IsComplete bus =
      (id : SubId) → in_pool id ≡ true → (contains id bus.ids || is_some (queue bus id)) ≡ true

  pub new-IsValid : IsValid (new {T = T})
  unfolding new lookup
  new-IsValid = record {
    free = λ id h. (ground (arith, contains-range_from id 1 65534), refl);
    used = λ id h. cc;
  }

  pub new-IsComplete : (bus : EventBus T) → bus ≡ new → IsComplete bus
  unfolding new
  new-IsComplete bus e id h = rw e (ground (arith, contains-range_from id 1 65534))

  pub subscribe_at-IsValid :
      (bus : EventBus T) (o : Option SubId)
      → ((id : SubId) → o ≡ some id → contains id bus.ids ≡ true)
      → IsValid bus
      → IsValid (subscribe_at bus o).0
  subscribe_at-IsValid bus none h v = unfold subscribe_at in v
  subscribe_at-IsValid bus (some id) h v = record {
    free = λ j e.
        ground (arith, queue-subscribe_at bus id j, contains-subscribe_at bus id j, v.free j);
    used = λ j e. ground (arith, queue-subscribe_at bus id j, v.used j, v.free j, same j);
  }
    where
      same : (j : ℕ) → id ≡ j → contains j bus.ids ≡ true
      same j e = subst (λ k. contains k bus.ids ≡ true) e (h id refl)

  subscribe_at-IsComplete :
      (bus : EventBus T) (o : Option SubId) → IsComplete bus → IsComplete (subscribe_at bus o).0
  subscribe_at-IsComplete bus none c = unfold subscribe_at in c
  subscribe_at-IsComplete bus (some id) c =
      λ j e. ground (arith, queue-subscribe_at bus id j, contains-subscribe_at bus id j, c j)

  unsubscribe_now-IsValid :
      (bus : EventBus T) (id : SubId) → IsValid bus → IsValid (unsubscribe_now bus id)
  unsubscribe_now-IsValid bus id v = record {
    free = λ j e. ground (
      arith,
      queue-unsubscribe_now bus id j,
      contains-unsubscribe_now bus id j,
      v.free j,
      v.used j,
    );
    used = λ j e. ground (arith, queue-unsubscribe_now bus id j, v.used j);
  }

  unsubscribe_now-IsComplete :
      (bus : EventBus T) (id : SubId) → IsComplete bus → IsComplete (unsubscribe_now bus id)
  unsubscribe_now-IsComplete bus id c j e =
      ground (arith, queue-unsubscribe_now bus id j, contains-unsubscribe_now bus id j, c j)

  cleanup-IsValid : (bus : EventBus T) → IsValid bus → IsValid (cleanup bus)
  unfolding cleanup
  cleanup-IsValid bus v = record {
    free = λ j e. ground (arith, queue-cleanup bus j, v.free j);
    used = λ j e. ground (arith, queue-cleanup bus j, v.used j);
  }

  -- A step that keeps the free identifiers and the identifiers that have a queue keeps the rest.
  module _ (bus after : EventBus T) (ids : after.ids ≡ bus.ids)
      (queues : (j : SubId) → is_some (queue after j) ≡ is_some (queue bus j)) where
    kept-IsValid : IsValid bus → IsValid after
    kept-IsValid v = record {
      free = λ j e. rw (queues j) (v.free j (rw ids at e));
      used = λ j e. v.used j (rw (queues j) at e);
    }

    kept-IsComplete : IsComplete bus → IsComplete after
    kept-IsComplete c j e = rw (ids, queues j) (c j e)

  push-queues :
      (bus : EventBus T) (event : T) (j : SubId)
      → is_some (queue (push_to_event_queues bus event).0 j) ≡ is_some (queue bus j)
  push-queues bus event j = ground (arith, queue-push bus event j)

  poll-queues :
      (bus : EventBus T) (id j : SubId) → is_some (queue (poll bus id).0 j) ≡ is_some (queue bus j)
  poll-queues bus id j = ground (arith, queue-poll bus id j)

  batch_poll-queues :
      (bus : EventBus T) (id j : SubId)
      → is_some (queue (batch_poll bus id).0 j) ≡ is_some (queue bus j)
  batch_poll-queues bus id j = ground (arith, queue-batch_poll bus id j)

module _ {T R : Type 0} (order : IterOrder) where
  -- Every message keeps the identifiers in order, with the feature and without.
  pub handle-IsValid :
      (delay_delete : Bool) (bus : EventBus T) (m : EventBusMessage T R)
      → IsValid bus
      → IsValid (handle delay_delete order bus m).0
  unfolding handle
  handle-IsValid d bus (EventBusMessage.subscribe r) v =
      unfold subscribe in
      subscribe_at-IsValid bus (order.first bus.ids) (order.first-some bus.ids) v
  handle-IsValid true bus (EventBusMessage.unsubscribe id) v =
      unfold unsubscribe in record { free = v.free; used = v.used }
  handle-IsValid false bus (EventBusMessage.unsubscribe id) v =
      unfold unsubscribe in unsubscribe_now-IsValid bus id v
  handle-IsValid d bus (EventBusMessage.push_event e r) v =
      kept-IsValid bus _ (unfold push_to_event_queues in refl) (push-queues bus e) v
  handle-IsValid d bus (EventBusMessage.poll id r) v =
      kept-IsValid bus _ (poll-ids bus id) (poll-queues bus id) v
  handle-IsValid d bus (EventBusMessage.batch_poll id r) v =
      kept-IsValid bus _ (batch_poll-ids bus id) (batch_poll-queues bus id) v
  handle-IsValid true bus EventBusMessage.clean_up_bg_task v = cleanup-IsValid bus v
  handle-IsValid false bus EventBusMessage.clean_up_bg_task v = v

  handle-IsComplete :
      (bus : EventBus T) (m : EventBusMessage T R)
      → IsComplete bus
      → IsComplete (handle false order bus m).0
  unfolding handle
  handle-IsComplete bus (EventBusMessage.subscribe r) c =
      unfold subscribe in subscribe_at-IsComplete bus (order.first bus.ids) c
  handle-IsComplete bus (EventBusMessage.unsubscribe id) c =
      unfold unsubscribe in unsubscribe_now-IsComplete bus id c
  handle-IsComplete bus (EventBusMessage.push_event e r) c =
      kept-IsComplete bus (push_to_event_queues bus e).0 (unfold push_to_event_queues in refl)
        (push-queues bus e) c
  handle-IsComplete bus (EventBusMessage.poll id r) c =
      kept-IsComplete bus (poll bus id).0 (poll-ids bus id) (poll-queues bus id) c
  handle-IsComplete bus (EventBusMessage.batch_poll id r) c =
      kept-IsComplete bus (batch_poll bus id).0 (batch_poll-ids bus id) (batch_poll-queues bus id) c
  handle-IsComplete bus EventBusMessage.clean_up_bg_task c = c

  pub run-IsValid :
      (delay_delete : Bool) (bus : EventBus T) (ms : List (EventBusMessage T R))
      → IsValid bus
      → IsValid (run delay_delete order bus ms).0
  unfolding run
  run-IsValid d bus [] v = v
  run-IsValid d bus (m ∷ ms) v =
      run-IsValid d (handle d order bus m).0 ms (handle-IsValid d bus m v)

  pub run-IsComplete :
      (bus : EventBus T) (ms : List (EventBusMessage T R))
      → IsComplete bus
      → IsComplete (run false order bus ms).0
  unfolding run
  run-IsComplete bus [] c = c
  run-IsComplete bus (m ∷ ms) c =
      run-IsComplete (handle false order bus m).0 ms (handle-IsComplete bus m c)

  -- After any messages to a new bus without the feature delay-delete, a number is free exactly when
  -- it is in the pool and has no queue, and has a queue exactly when it is in the pool and not
  -- free: no identifier is lost, none is handed out while it has a queue, and none is from outside.
  pub run-accounts :
      (ms : List (EventBusMessage T R)) (id : SubId)
      → let bus = (run false order new ms).0 in
        (contains id bus.ids ≡ (in_pool id && not (is_some (queue bus id))))
        × (is_some (queue bus id) ≡ (in_pool id && not (contains id bus.ids)))
  run-accounts ms id =
      let bus = (run false order new ms).0 in
      let v = run-IsValid false new ms new-IsValid in
      let c = run-IsComplete new ms (new-IsComplete new refl) in
      ground (arith, v.free id, v.used id, c id)
