-- ===== src/EventBus/Stale.antt =====
-- imputio-utils/src/event_bus.rs without the feature delay-delete: `Unsubscribe` messages for an
-- identifier that is free already, or that another subscriber has meanwhile.
use toy_io.Common.{
  ◌≡◌, refl, ◌∙◌, true, false, Option, none, some, List, [], ◌∷◌, arith, contains, if◌then◌else◌,
}
use toy_io.EventBus.Protocol.{SubId, EventBusMessage, subscribed, ok}
use toy_io.EventBus.Lookup.{
  queue, queue-subscribe_at, queue-unsubscribe_now, contains-unsubscribe_now,
}
use toy_io.EventBus.{
  EventBus, IterOrder, subscribe, subscribe_at, unsubscribe_now, unsubscribe, handle, run,
}

-- The iteration order that comes to `id` first, if it is in the set.
prefer_at : SubId → List SubId → Option SubId
prefer_at id [] = none
prefer_at id (x ∷ xs) = if contains id (x ∷ xs) then some id else some x

prefer_at-none : (id : SubId) (ids : List SubId) → prefer_at id ids ≡ none → ids ≡ []
unfolding prefer_at
prefer_at-none id [] h = refl
prefer_at-none id (x ∷ xs) h = ground arith

prefer_at-some :
    (id : SubId) (ids : List SubId) (j : SubId) → prefer_at id ids ≡ some j → contains j ids ≡ true
unfolding prefer_at contains
prefer_at-some id [] j h = cc
prefer_at-some id (x ∷ xs) j h = ground (arith, same)
  where
    same : id ≡ j → contains id xs ≡ contains j xs
    same e = cc

prefer_at-contains :
    (id : SubId) (ids : List SubId) → contains id ids ≡ true → prefer_at id ids ≡ some id
unfolding prefer_at contains
prefer_at-contains id [] h = cc
prefer_at-contains id (x ∷ xs) h = ground arith

pub prefer : SubId → IterOrder
unfolding prefer_at
prefer id = record {
  first = prefer_at id;
  first-none = prefer_at-none id;
  first-some = prefer_at-some id;
}

pub prefer-contains :
    (id : SubId) (ids : List SubId) → contains id ids ≡ true → (prefer id).first ids ≡ some id
unfolding prefer
prefer-contains id ids h = prefer_at-contains id ids h

module _ {T : Type 0} (bus : EventBus T) (id : SubId) where
  unsubscribe_now-none : queue bus id ≡ none → unsubscribe_now bus id ≡ bus
  unfolding unsubscribe_now
  unsubscribe_now-none e = rw (e, unsubscribe_now)

module _ {T : Type 0} where
  -- A second `Unsubscribe` with no subscription in between changes nothing, so a handle that is
  -- unsubscribed and then dropped does no harm by itself.
  pub unsubscribe-unsubscribe :
      (bus : EventBus T) (id : SubId)
      → unsubscribe false (unsubscribe false bus id) id ≡ unsubscribe false bus id
  unfolding unsubscribe
  unsubscribe-unsubscribe bus id =
      unsubscribe_now-none (unsubscribe_now bus id) id
        (queue-unsubscribe_now bus id id ∙ (ground arith))

module _ {T R : Type 0} where
  -- A stale `Unsubscribe` takes another subscriber's queue away. For each subscriber there is an
  -- order of the free identifiers in which the identifier that it gives up goes to the next
  -- subscription; the handle's second `Unsubscribe` (its drop, or that of a clone) then leaves that
  -- new subscriber without a queue, and its identifier free to be handed out once more.
  pub stale_unsubscribe :
      (bus : EventBus T) (id : SubId) (q : List T) (reply : R)
      → queue bus id ≡ some q
      → let (after, out) = run false (prefer id) bus (
          EventBusMessage.unsubscribe id
          ∷ EventBusMessage.subscribe reply
          ∷ EventBusMessage.unsubscribe id
          ∷ []) in
        (out ≡ (reply, subscribed (ok id)) ∷ [])
        × (queue after id ≡ none)
        × (contains id after.ids ≡ true)
  unfolding run handle subscribe unsubscribe prefer
  stale_unsubscribe bus id q reply e =
      let bus₁ = unsubscribe_now bus id in
      let free : contains id bus₁.ids ≡ true =
        contains-unsubscribe_now bus id id ∙ (rw e (ground arith)) in
      let bus₂ = (subscribe_at bus₁ (some id)).0 in
      let has : queue bus₂ id ≡ some [] = queue-subscribe_at bus₁ id id ∙ (ground arith) in
      rw (prefer_at-contains id bus₁.ids free) (
        unfold subscribe_at in refl,
        queue-unsubscribe_now bus₂ id id ∙ (ground arith),
        contains-unsubscribe_now bus₂ id id ∙ (rw has (ground arith)),
      )
