-- ===== src/EventBus/Tests.antt =====
-- imputio-utils/src/event_bus.rs: runs of the actor on small inputs.
use mathlib.Core.Bool.{not}
use toy_io.Common.{
  ℕ, zero, suc, inr, ◌<◌, ◌≤◌, ◌-◌, ◌≡◌, refl, Bool, true, false, ◌&&◌, none, some, List, [], ◌∷◌,
  ◌++◌, arith, contains, if◌then◌else◌, ◌==◌, is_some,
}
use toy_io.Common.Dict.{lookup}
use toy_io.EventBus.Protocol.{SubId, EventBusMessage, subscribed, ok}
use toy_io.EventBus.Lookup.{queue}
use toy_io.EventBus.Ids
use toy_io.EventBus.Ids.{in_pool, IsValid, IsComplete}
use toy_io.EventBus.Spec
use toy_io.EventBus.Delivery
use toy_io.EventBus.Delayed
use toy_io.EventBus.Stale
use toy_io.EventBus.Stale.{prefer}
use toy_io.EventBus.Samples.{Local, local, local_for, served_for, local_served}
use toy_io.EventBus.Matcher
use toy_io.EventBus.Handles.{SubHandle}
use toy_io.EventBus.Handles.CleanupTask
use toy_io.EventBus.Handles.Matching
use toy_io.EventBus.Handles.Among
use toy_io.EventBus.Handles.{publish_each}
use toy_io.EventBus.Handles.Service.{publish_each_lem}
use toy_io.EventBus.{EventBus, new, u16_max, handle, run}

-- A bus with two subscribers, of which the first has an event pending, and two free identifiers.
abbrev two_subscribers : EventBus ℕ
two_subscribers = record {
  event_queues = (3, 10 ∷ []) ∷ (7, []) ∷ [];
  ids = 1 ∷ 2 ∷ [];
  recycle = [];
}

two_subscribers-IsValid : IsValid two_subscribers
unfolding contains lookup
two_subscribers-IsValid = record { free = λ id h. ground arith; used = λ id h. ground arith }

-- The subscriber 3 publishes, polls once, another one unsubscribes, and 3 polls for the rest.
abbrev traffic : List (EventBusMessage ℕ ℕ)
traffic =
    EventBusMessage.push_event 20 0
    ∷ EventBusMessage.poll 3 1
    ∷ EventBusMessage.unsubscribe 7
    ∷ EventBusMessage.subscribe 2
    ∷ EventBusMessage.push_event 30 3
    ∷ EventBusMessage.batch_poll 3 4
    ∷ []

run-received_example :
    (q' : List ℕ) × Delivery.Holds 3 (run false (prefer 1) two_subscribers traffic).0 q'
    × ((10 ∷ []) ++ Delivery.published traffic
        ≡ Delivery.received false (prefer 1) 3 two_subscribers traffic ++ q')
unfolding lookup contains
run-received_example =
    Delivery.run-received false (prefer 1) traffic 3 two_subscribers (10 ∷ [])
      (refl, (refl, (refl, (refl, (refl, (refl, tt)))))) two_subscribers-IsValid (refl, refl)

run-accounts_example :
    let bus = (run false (prefer 7) (new {T = ℕ}) traffic).0 in
    (contains 7 bus.ids ≡ (in_pool 7 && not (is_some (queue bus 7))))
    × (is_some (queue bus 7) ≡ (in_pool 7 && not (contains 7 bus.ids)))
run-accounts_example = Ids.run-accounts (prefer 7) traffic 7

-- A new bus after some messages.
abbrev used_bus : EventBus ℕ
used_bus = (run false (prefer 7) new traffic).0

handle-Step_example :
    Spec.Step
      (queue used_bus)
      (queue (handle {R = ℕ} false (prefer 9) used_bus (EventBusMessage.subscribe 5)).0)
      (EventBusMessage.subscribe 5)
      (handle {R = ℕ} false (prefer 9) used_bus (EventBusMessage.subscribe 5)).1
handle-Step_example =
    Spec.handle-Step used_bus (prefer 9) (EventBusMessage.subscribe 5)
      (Ids.run-IsValid (prefer 7) false new traffic Ids.new-IsValid)
      (Ids.run-IsComplete (prefer 7) new traffic (Ids.new-IsComplete new refl))

run-granted-le_example : Delayed.granted (run true (prefer 7) (new {T = ℕ}) traffic).1 ≤ u16_max - 1
run-granted-le_example = Delayed.run-granted-le (prefer 7) traffic

stale_unsubscribe_example :
    let (after, out) = run {R = ℕ} false (prefer 3) two_subscribers (
      EventBusMessage.unsubscribe 3
      ∷ EventBusMessage.subscribe 5
      ∷ EventBusMessage.unsubscribe 3
      ∷ []) in
    (out ≡ (5, subscribed (ok 3)) ∷ []) × (queue after 3 ≡ none) × (contains 3 after.ids ≡ true)
unfolding lookup
stale_unsubscribe_example = Stale.stale_unsubscribe two_subscribers 3 (10 ∷ []) 5 refl

abbrev idle_net : Local ℕ
idle_net = record { state = some two_subscribers; replies = []; fresh = 0 }

abbrev subscriber : SubHandle
subscriber = record { id = 3 }

cleanup_task_lem_example :
    (bus' : EventBus ℕ) × ((CleanupTask.cleanup_task
        (local_for true)
        2
        (CleanupTask.unsubscribe_calls (local_for true) idle_net subscriber (3 ∷ 3 ∷ []))).state
      ≡ some bus')
    × (bus'.recycle ≡ [])
    × ((j : SubId)
        → queue bus' j ≡ (if contains j (3 ∷ 3 ∷ []) then none else queue two_subscribers j))
cleanup_task_lem_example =
    CleanupTask.cleanup_task_lem (local_for true) (prefer 1) (served_for true) 1 idle_net
      two_subscribers subscriber (3 ∷ 3 ∷ []) refl refl

abbrev is_ten : ℕ → Bool
is_ten n = n == 10

event_poll_matcher_finds_example :
    (Matching.event_poll_matcher local {S = ℕ} 4 idle_net subscriber is_ten (some (1, true))
      ≡ some (1, 1 ∷ [], ok tt))
    × (bus' : EventBus ℕ) × ((Matching.after_polls local idle_net subscriber 1).state ≡ some bus')
    × (queue bus' 3 ≡ some [])
unfolding lookup Matcher.event_handler
event_poll_matcher_finds_example =
    Matching.event_poll_matcher_finds local false (prefer 1) local_served idle_net two_subscribers
      subscriber (10 ∷ []) is_ten (some (1, true)) 4 0 10 refl refl (omega arith)
      (λ i x h e. absurd (omega arith)) refl refl

-- Before the third poll of the subscriber another client publishes two events.
abbrev batch : ℕ → List ℕ
batch (suc (suc zero)) = 30 ∷ 20 ∷ []
batch n = []

abbrev publishes : ℕ → Local ℕ → Local ℕ
publishes n net = publish_each local net (batch n)

publishes-grow :
    (n : ℕ) (net : Local ℕ) (q : List ℕ)
    → (bus : EventBus ℕ) × (net.state ≡ some bus) × (queue bus 3 ≡ some q)
    → (bus : EventBus ℕ) × ((publishes n net).state ≡ some bus)
      × (queue bus 3 ≡ some (q ++ batch n))
publishes-grow n net q (bus, e, has) =
    publish_each_lem local false (prefer 1) local_served (batch n) net bus 3 q e has

event_poll_matcher_ends_example :
    (bound : ℕ) × ((fuel : ℕ)
      → bound < fuel
      → (n : ℕ) × (Among.event_poll_matcher_among local publishes {S = ℕ} fuel idle_net subscriber
            (λ n. n == 20)
            (some (1, true))
          ≡ some (n, 1 ∷ [], ok tt)))
unfolding lookup Matcher.batch_handler
event_poll_matcher_ends_example =
    Among.event_poll_matcher_ends local false (prefer 1) local_served publishes batch subscriber
      publishes-grow idle_net (λ n. n == 20) (10 ∷ []) (some (1, true))
      (two_subscribers, refl, refl) (inr (2, refl))
