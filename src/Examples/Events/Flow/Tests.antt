-- ===== src/Examples/Events/Flow/Tests.antt =====
-- examples/exec-config/events/main.rs: the function on a new bus, while another
-- thread publishes the packet of the second wait before its second poll.
use toy_io.Common.{ℕ, zero, suc, ◌<◌, ◌≡◌, refl, false, some, List, [], ◌∷◌, arith, contains, ◌⊎◌}
use toy_io.Common.Dict.{lookup}
use toy_io.EventBus.Protocol.{ok, err, resource_exhaustion}
use toy_io.EventBus.{EventBus}
use toy_io.EventBus.Stale.{prefer}
use toy_io.EventBus.Samples.{Local, local, local_served}
use toy_io.EventBus.Matcher.{batch_handler}
use toy_io.EventBus.Handles.{SubHandle, publish_each}
use toy_io.EventBus.Handles.Service.{publish_each_lem}
use toy_io.Examples.Events.{Packet, matcher_two, same_bytes}
use toy_io.Examples.Events.Flow.Whole
use toy_io.EventBus.Ids.{IsValid}
use toy_io.Examples.Events.Flow.Ends.{Grows}
use toy_io.Examples.Events.Flow.{future_spam_with_event_bus}

abbrev batch : ℕ → ℕ → List Packet
batch (suc (suc (suc zero))) (suc zero) =
    record { bytes = 190 ∷ 239 ∷ 250 ∷ 206 ∷ []; size = 4 } ∷ []
batch p n = []

abbrev publishes : ℕ → ℕ → Local Packet → Local Packet
publishes p n net = publish_each local net (batch p n)

abbrev bus : EventBus Packet
bus = record { event_queues = []; ids = 1 ∷ 2 ∷ 3 ∷ 4 ∷ []; recycle = [] }

bus-IsValid : IsValid bus
unfolding contains lookup
bus-IsValid = record { free = λ id h. ground arith; used = λ id h. ground arith }

abbrev net : Local Packet
net = record { state = some bus; replies = []; fresh = 0 }

publishes-Grows : (h : SubHandle) → Grows local false (prefer 1) local_served publishes batch h
publishes-Grows h p n net q (bus, e, has) =
    publish_each_lem local false (prefer 1) local_served (batch p n) net bus h.id q e has

future_spam_ends_example :
    ((net' : Local Packet) × ((fuel_one fuel_two : ℕ)
        → future_spam_with_event_bus local publishes fuel_one fuel_two (tt ∷ []) net
          ≡ some (net', err resource_exhaustion)))
    ⊎ ((bound_one : ℕ) × ((fuel_one : ℕ)
          → bound_one < fuel_one
          → (bound_two : ℕ) × ((fuel_two : ℕ)
              → bound_two < fuel_two
              → (net' : Local Packet) × (future_spam_with_event_bus local publishes fuel_one
                    fuel_two
                    (tt ∷ [])
                    net
                  ≡ some (net', ok tt)))))
unfolding batch_handler matcher_two same_bytes
future_spam_ends_example =
    Whole.future_spam_ends local false (prefer 1) local_served publishes batch net bus refl
      bus-IsValid (λ h first. publishes-Grows h) (1, refl)
