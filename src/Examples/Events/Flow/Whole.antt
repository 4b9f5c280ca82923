-- ===== src/Examples/Events/Flow/Whole.antt =====
-- examples/exec-config/events/main.rs: `future_spam_with_event_bus` from its subscriptions on.
use toy_io.Common.{
  ℕ, ◌<◌, ◌≡◌, ◌≢◌, refl, sym, ◌∙◌, ap, subst, Bool, true, Option, none, some, List, [], ◌∷◌, ◌⊎◌,
  inl, inr,
}
use toy_io.Flume.{Link, IsServed}
use toy_io.EventBus.Protocol.{EventBusMessage, Answer, Result, ok, err, resource_exhaustion}
use toy_io.EventBus.{EventBus, IterOrder, handle}
use toy_io.EventBus.Ids.{IsValid}
use toy_io.EventBus.Lookup.{queue}
use toy_io.EventBus.Matcher.{batch_handler}
use toy_io.EventBus.Handles.{SubHandle, get_subscriber}
use toy_io.EventBus.Handles.Service.{get_subscriber_lem}
use toy_io.Examples.Events.Flow.{
  future_spam_with_event_bus, after_subscribing, subscribed_or, drop_all,
}
use toy_io.Examples.Events.Flow.Ends.{Grows, after_subscribing_ends}
use toy_io.Examples.Events.{Packet, matcher_two}

module _ {R : Type 0} (link : Link (EventBusMessage Packet R) R (Answer Packet))
    (delay_delete : Bool) (order : IterOrder)
    (served : IsServed link (handle {T = Packet} {R = R} delay_delete order))
    (others : ℕ → ℕ → link.Net → link.Net) (batch : ℕ → ℕ → List Packet) where
  open served use {actor}

  -- A call of the function that gives this with any fuel, or with enough of it.
  abbrev Refuses : (ℕ → ℕ → Option (link.Net × Result (Unit {0}))) → Type 0
  Refuses call =
      (net' : link.Net) × ((fuel_one fuel_two : ℕ)
        → call fuel_one fuel_two ≡ some (net', err resource_exhaustion))

  abbrev Succeeds : (ℕ → ℕ → Option (link.Net × Result (Unit {0}))) → Type 0
  Succeeds call =
      (bound_one : ℕ) × ((fuel_one : ℕ)
        → bound_one < fuel_one
        → (bound_two : ℕ) × ((fuel_two : ℕ)
            → bound_two < fuel_two
            → (net' : link.Net) × (call fuel_one fuel_two ≡ some (net', ok tt))))

  abbrev Outcomes : (ℕ → ℕ → Option (link.Net × Result (Unit {0}))) → Type 0
  Outcomes call = Refuses call ⊎ Succeeds call

  abbrev NextCall : Type 0
  NextCall = ℕ → ℕ → link.Net → SubHandle → Option (link.Net × Result (Unit {0}))

  refused :
      (hs : List SubHandle) (r : link.Net × Result SubHandle) (next : NextCall)
      → r.1 ≡ err resource_exhaustion
      → Outcomes (λ f g. subscribed_or link others hs r (next f g))
  refused hs r next same =
      subst (λ x. Outcomes (λ f g. subscribed_or link others hs (r.0, x) (next f g))) (sym same)
        (inl (drop_all link others r.0 hs, λ f g. refl))

  granted :
      (hs : List SubHandle) (r : link.Net × Result SubHandle) (h : SubHandle) (next : NextCall)
      → r.1 ≡ ok h
      → Outcomes (λ f g. next f g r.0 h)
      → Outcomes (λ f g. subscribed_or link others hs r (next f g))
  granted hs r h next same =
      subst (λ x. Outcomes (λ f g. subscribed_or link others hs (r.0, x) (next f g))) (sym same)

  apart : (bus : EventBus Packet) (i j : ℕ) → queue bus i ≡ some [] → queue bus j ≡ none → i ≢ j
  apart bus i j has lacks same =
      let clash : some [] ≡ none = sym has ∙ ap (queue bus) same ∙ lacks in cc

  abbrev third : SubHandle → NextCall
  third two f g net three = after_subscribing link others f g (tt ∷ []) net two three

  abbrev second : SubHandle → NextCall
  second one f g net two =
      subscribed_or link others (two ∷ one ∷ []) (get_subscriber link net) (third two f g)

  module _ (arrives : (k : ℕ) × (batch_handler matcher_two (batch 3 k) ≡ true)) where
    third-Outcomes :
        (net : link.Net) (bus : EventBus Packet) (one two : SubHandle)
        → actor net ≡ some bus
        → IsValid bus
        → queue bus two.id ≡ some []
        → Grows link delay_delete order served others batch two
        → ((h : SubHandle)
            → queue bus h.id ≡ none
            → Grows link delay_delete order served others batch h)
        → Outcomes (λ f g. second one f g net two)
    third-Outcomes net bus one two e v has grows grows' =
        elim (get_subscriber_lem link delay_delete order served net bus e v) [
          | inl (r, _, _) ↦ refused (two ∷ one ∷ []) (get_subscriber link net) (third two) r
          | inr (three, r, _, fresh, bus', e', has', _, keeps) ↦
              let ne = apart bus two.id three.id has fresh in
              granted (two ∷ one ∷ []) (get_subscriber link net) three (third two) r (
                inr (
                  after_subscribing_ends link delay_delete order served others batch
                    (get_subscriber link net).0 two three [] [] (λ same. ne (sym same)) grows
                    (grows' three fresh) (bus', e', keeps two.id (λ same. ne (sym same)) ∙ has)
                    (bus', e', has') arrives))
        ]

    second-Outcomes :
        (net : link.Net) (bus : EventBus Packet) (one : SubHandle)
        → actor net ≡ some bus
        → IsValid bus
        → queue bus one.id ≡ some []
        → ((h : SubHandle) → one.id ≢ h.id → Grows link delay_delete order served others batch h)
        → Outcomes
            (λ f g. subscribed_or link others (one ∷ []) (get_subscriber link net) (second one f g))
    second-Outcomes net bus one e v has grows =
        elim (get_subscriber_lem link delay_delete order served net bus e v) [
          | inl (r, _, _) ↦ refused (one ∷ []) (get_subscriber link net) (second one) r
          | inr (two, r, _, fresh, bus', e', has', v', keeps) ↦
              let ne = apart bus one.id two.id has fresh in
              let kept : queue bus' one.id ≡ some [] = keeps one.id (λ same. ne (sym same)) ∙ has in
              granted (one ∷ []) (get_subscriber link net) two (second one) r (
                third-Outcomes (get_subscriber link net).0 bus' one two e' v' has' (grows two ne)
                  (λ h lacks. grows h (apart bus' one.id h.id kept lacks)))
        ]

  abbrev id_of : Result SubHandle → ℕ
  id_of (ok h) = h.id
  id_of (err e) = 0

  -- The whole function ends. Let the identifiers of the bus be in order at its start, let what
  -- other tasks and threads do only add events to the queues of the subscribers other than the
  -- function's first one, let one of the events that they add during the second wait be the packet
  -- that it is for, and let the matcher of the first subscriber send its notice. Then either the
  -- function ends with the error of a subscription when the bus has no free identifier, or with
  -- enough fuel for its two waits it ends with `Ok(())`.
  pub future_spam_ends :
      (net : link.Net) (bus : EventBus Packet)
      → actor net ≡ some bus
      → IsValid bus
      → ((h : SubHandle)
          → (get_subscriber link net).1 ≢ ok h
          → Grows link delay_delete order served others batch h)
      → (arrives : (k : ℕ) × (batch_handler matcher_two (batch 3 k) ≡ true))
      → ((net' : link.Net) × ((fuel_one fuel_two : ℕ)
            → future_spam_with_event_bus link others fuel_one fuel_two (tt ∷ []) net
              ≡ some (net', err resource_exhaustion)))
        ⊎ ((bound_one : ℕ) × ((fuel_one : ℕ)
              → bound_one < fuel_one
              → (bound_two : ℕ) × ((fuel_two : ℕ)
                  → bound_two < fuel_two
                  → (net' : link.Net) × (future_spam_with_event_bus link others fuel_one fuel_two
                        (tt ∷ [])
                        net
                      ≡ some (net', ok tt)))))
  unfolding future_spam_with_event_bus
  future_spam_ends net bus e v grows arrives =
      elim (get_subscriber_lem link delay_delete order served net bus e v) [
        | inl (r, _, _) ↦
            refused [] (get_subscriber link net)
              (λ f g net₁ one.
                subscribed_or link others (one ∷ []) (get_subscriber link net₁) (second one f g))
              r
        | inr (one, r, _, fresh, bus', e', has', v', keeps) ↦
            granted [] (get_subscriber link net) one
              (λ f g net₁ one.
                subscribed_or link others (one ∷ []) (get_subscriber link net₁) (second one f g))
              r
              (second-Outcomes arrives (get_subscriber link net).0 bus' one e' v' has'
                (λ h ne. grows h (λ same. ne (ap id_of (sym r ∙ same)))))
      ]
