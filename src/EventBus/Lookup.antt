-- ===== src/EventBus/Lookup.antt =====
-- imputio-utils/src/event_bus.rs: what each method of the actor does to the queue of one
-- identifier, and to the set of free identifiers.
use mathlib.Core.Bool.{not}
use mathlib.Core.Option
use toy_io.Common.{
  ℕ, ◌≡◌, refl, ◌∙◌, ◌&&◌, ◌||◌, Option, none, some, List, [], ◌∷◌, ◌++◌, append-nil, append_assoc,
  arith, contains, contains-set_insert, contains-set_remove, if◌then◌else◌, ◌==◌, is_some,
  Option-cases, inl, inr,
}
use toy_io.Common.Dict.{Dict, lookup, remove, insert, lookup-insert, lookup-remove, lookup-for_each}
use toy_io.EventBus.Protocol.{SubId, ok}
use toy_io.EventBus.{
  EventBus, subscribe_at, unsubscribe_now, remove_all, cleanup, push_to_event_queues, poll, drain,
  batch_poll,
}

module _ {T : Type 0} where
  abbrev pub queue : EventBus T → SubId → Option (List T)
  queue bus id = lookup id bus.event_queues

  pub queue-subscribe_at :
      (bus : EventBus T) (id j : SubId)
      → queue (subscribe_at bus (some id)).0 j ≡ (if id == j then some [] else queue bus j)
  unfolding subscribe_at
  queue-subscribe_at bus id j = lookup-insert j id [] bus.event_queues

  pub contains-subscribe_at :
      (bus : EventBus T) (id j : SubId)
      → contains j (subscribe_at bus (some id)).0.ids ≡ (not (id == j) && contains j bus.ids)
  unfolding subscribe_at
  contains-subscribe_at bus id j = contains-set_remove j id bus.ids

  pub queue-unsubscribe_now :
      (bus : EventBus T) (id j : SubId)
      → queue (unsubscribe_now bus id) j ≡ (if id == j then none else queue bus j)
  unfolding unsubscribe_now
  queue-unsubscribe_now bus id j = ground (arith, lookup-remove j id bus.event_queues, same j id)
    where
      same : (j id : ℕ) → id ≡ j → queue bus id ≡ queue bus j
      same j id e = cc

  pub contains-unsubscribe_now :
      (bus : EventBus T) (id j : SubId)
      → contains j (unsubscribe_now bus id).ids
        ≡ (id == j && is_some (queue bus j) || contains j bus.ids)
  unfolding unsubscribe_now
  contains-unsubscribe_now bus id j = ground (arith, contains-set_insert j id bus.ids, same j id)
    where
      same : (j id : ℕ) → id ≡ j → queue bus id ≡ queue bus j
      same j id e = cc

  pub lookup-remove_all :
      (ids : List SubId) (queues : Dict (List T)) (j : SubId)
      → lookup j (remove_all ids queues) ≡ (if contains j ids then none else lookup j queues)
  unfolding remove_all contains
  lookup-remove_all [] queues j = refl
  lookup-remove_all (id ∷ ids) queues j =
      ground (arith, lookup-remove_all ids (remove id queues) j, lookup-remove j id queues)

  pub queue-cleanup :
      (bus : EventBus T) (j : SubId)
      → queue (cleanup bus) j ≡ (if contains j bus.recycle then none else queue bus j)
  unfolding cleanup
  queue-cleanup bus j = lookup-remove_all bus.recycle bus.event_queues j

  pub queue-push :
      (bus : EventBus T) (event : T) (j : SubId)
      → queue (push_to_event_queues bus event).0 j ≡ Option.map (λ v. v ++ event ∷ []) (queue bus j)
  unfolding push_to_event_queues
  queue-push bus event j = lookup-for_each (λ v. v ++ event ∷ []) j bus.event_queues

  pub drain_lem : (item items : List T) → drain item items ≡ ([], items ++ item)
  unfolding drain
  drain_lem [] items = rw append-nil
  drain_lem (i ∷ item) items = drain_lem item (items ++ i ∷ []) ∙ rw append_assoc

  abbrev pub rest_of : List T → List T
  rest_of [] = []
  rest_of (e ∷ es) = es

  abbrev pub front_of : List T → Option T
  front_of [] = none
  front_of (e ∷ es) = some e

  -- `poll` on an identifier that has no queue, and on one that has.
  pub poll-none :
      (bus : EventBus T) (id : SubId) → queue bus id ≡ none → poll bus id ≡ (bus, ok none)
  unfolding poll
  poll-none bus id e = rw (e, poll)

  pub poll-some :
      (bus : EventBus T) (id : SubId) (q : List T)
      → queue bus id ≡ some q
      → poll bus id
        ≡ (record bus { event_queues = insert id (rest_of q) bus.event_queues }, ok (front_of q))
  unfolding poll
  poll-some bus id [] e = rw (e, poll)
  poll-some bus id (x ∷ q) e = rw (e, poll)

  pub batch_poll-none :
      (bus : EventBus T) (id : SubId) → queue bus id ≡ none → batch_poll bus id ≡ (bus, ok [])
  unfolding batch_poll
  batch_poll-none bus id e = rw (e, batch_poll)

  pub batch_poll-some :
      (bus : EventBus T) (id : SubId) (q : List T)
      → queue bus id ≡ some q
      → batch_poll bus id ≡ (record bus { event_queues = insert id [] bus.event_queues }, ok q)
  unfolding batch_poll
  batch_poll-some bus id q e = rw (e, batch_poll, drain_lem q [])

  -- Both kinds of poll change the queue of that one identifier.
  pub queue-poll :
      (bus : EventBus T) (id j : SubId)
      → queue (poll bus id).0 j
        ≡ (if id == j then Option.map rest_of (queue bus j) else queue bus j)
  queue-poll bus id j = elim (Option-cases (queue bus id)) [
    | inl e ↦ rw (poll-none bus id e) (ground arith)
    | inr (q, e) ↦
        rw (poll-some bus id q e) (ground (arith, lookup-insert j id (rest_of q) bus.event_queues))
  ]

  pub queue-batch_poll :
      (bus : EventBus T) (id j : SubId)
      → queue (batch_poll bus id).0 j
        ≡ (if id == j then Option.map (λ _. []) (queue bus j) else queue bus j)
  queue-batch_poll bus id j = elim (Option-cases (queue bus id)) [
    | inl e ↦ rw (batch_poll-none bus id e) (ground arith)
    | inr (q, e) ↦
        rw (batch_poll-some bus id q e) (ground (arith, lookup-insert j id [] bus.event_queues))
  ]

  pub poll-ids : (bus : EventBus T) (id : SubId) → (poll bus id).0.ids ≡ bus.ids
  unfolding poll
  poll-ids bus id = ground arith

  pub batch_poll-ids : (bus : EventBus T) (id : SubId) → (batch_poll bus id).0.ids ≡ bus.ids
  unfolding batch_poll
  batch_poll-ids bus id = ground arith

  pub poll-recycle : (bus : EventBus T) (id : SubId) → (poll bus id).0.recycle ≡ bus.recycle
  unfolding poll
  poll-recycle bus id = ground arith

  pub batch_poll-recycle :
      (bus : EventBus T) (id : SubId) → (batch_poll bus id).0.recycle ≡ bus.recycle
  unfolding batch_poll
  batch_poll-recycle bus id = ground arith
