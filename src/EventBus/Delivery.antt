-- ===== src/EventBus/Delivery.antt =====
-- imputio-utils/src/event_bus.rs: what a subscriber receives over a whole run of the actor.
use toy_io.Common.{
  ◌≡◌, refl, sym, ap, subst, ==_iff, ◌∙◌, Bool, true, false, Option, none, some, List, [], ◌∷◌,
  ◌++◌, arith, append-nil, append_step, contains, contains-append, if◌then◌else◌, ◌==◌, Bool-cases,
  inl, inr,
}
use toy_io.Common.Dict.{lookup-insert}
use toy_io.EventBus.Protocol.{SubId, EventBusMessage, Answer, polled, batch_polled, ok}
use toy_io.EventBus.Lookup.{
  queue, queue-subscribe_at, queue-unsubscribe_now, queue-push, queue-poll, queue-batch_poll,
  queue-cleanup, poll-some, batch_poll-some, rest_of, front_of, poll-recycle, batch_poll-recycle,
}
use toy_io.EventBus.Ids.{IsValid, handle-IsValid}
use toy_io.EventBus.{
  EventBus, IterOrder, subscribe, subscribe_at, unsubscribe, cleanup, push_to_event_queues, handle,
  run,
}

module _ {T R : Type 0} where
  -- The message ends the subscription `id`.
  abbrev pub ends : SubId → EventBusMessage T R → Bool
  ends id (EventBusMessage.unsubscribe j) = j == id
  ends id _ = false

  -- No message of the list ends the subscription.
  abbrev pub Stays : SubId → List (EventBusMessage T R) → Type 0
  Stays id [] = Unit
  Stays id (m ∷ ms) = (ends id m ≡ false) × Stays id ms

  abbrev pub event_of : EventBusMessage T R → List T
  event_of (EventBusMessage.push_event event _) = event ∷ []
  event_of _ = []

  -- The events that a list of messages publishes, in order.
  abbrev pub published : List (EventBusMessage T R) → List T
  published [] = []
  published (m ∷ ms) = event_of m ++ published ms

  -- The message polls for the subscriber `id`.
  abbrev pub asks : SubId → EventBusMessage T R → Bool
  asks id (EventBusMessage.poll j _) = j == id
  asks id (EventBusMessage.batch_poll j _) = j == id
  asks id _ = false

  abbrev pub events_in : List (R × Answer T) → List T
  events_in [] = []
  events_in ((_, polled (ok (some event))) ∷ out) = event ∷ events_in out
  events_in ((_, batch_polled (ok events)) ∷ out) = events ++ events_in out
  events_in (_ ∷ out) = events_in out

  -- The events in the answers to one message, if it polls for `id`.
  abbrev pub taken : SubId → EventBusMessage T R → List (R × Answer T) → List T
  taken id m out = if asks id m then events_in out else []

  pub front-rest :
      (r : R) (q : List T) → q ≡ events_in ((r, polled (ok (front_of q))) ∷ []) ++ rest_of q
  front-rest r [] = refl
  front-rest r (x ∷ q) = refl

module _ {T : Type 0} where
  -- The subscriber has a queue, and is not listed for the clean-up.
  abbrev pub Holds : SubId → EventBus T → List T → Type 0
  Holds id bus q = (queue bus id ≡ some q) × (contains id bus.recycle ≡ false)

  subscribe_at-Holds :
      (id : SubId) (bus : EventBus T) (q : List T) (o : Option SubId)
      → ((j : SubId) → o ≡ some j → contains j bus.ids ≡ true)
      → IsValid bus
      → Holds id bus q
      → Holds id (subscribe_at bus o).0 q
  unfolding subscribe_at
  subscribe_at-Holds id bus q none free v h = h
  subscribe_at-Holds id bus q (some j) free v h =
      (ground (arith, queue-subscribe_at bus j id, v.free j (free j refl), other), h.1)
    where
      other : j ≡ id → queue bus j ≡ queue bus id
      other e = ap (queue bus) e

  moved :
      (bus : EventBus T) (j id : SubId) (q : List T)
      → (j == id) ≡ true
      → queue bus id ≡ some q
      → queue bus j ≡ some q
  moved bus j id q e h = subst (λ k. queue bus k ≡ some q) (sym ((==_iff j id).0 e)) h

  unsubscribe-Holds :
      (d : Bool) (id : SubId) (bus : EventBus T) (q : List T) (j : SubId)
      → (j == id) ≡ false
      → Holds id bus q
      → Holds id (unsubscribe d bus j) q
  unfolding unsubscribe
  unsubscribe-Holds true id bus q j e h =
      (h.0, rw (contains-append id bus.recycle (j ∷ [])) (unfold contains in ground arith))
  unsubscribe-Holds false id bus q j e h =
      (rw (queue-unsubscribe_now bus j id, e) h.0, ground arith)

module _ {T R : Type 0} (delay_delete : Bool) (order : IterOrder) where
  -- All events that the subscriber `id` is sent during a run.
  pub received : SubId → EventBus T → List (EventBusMessage T R) → List T
  received id bus [] = []
  received id bus (m ∷ ms) =
      let (bus', out) = handle delay_delete order bus m in taken id m out ++ received id bus' ms

  abbrev Kept : SubId → EventBus T → List T → EventBusMessage T R → Type 0
  Kept id bus q m =
      let (bus', out) = handle delay_delete order bus m in
      (q' : List T) × Holds id bus' q' × (q ++ event_of m ≡ taken id m out ++ q')

  poll-Kept :
      (id : SubId) (bus : EventBus T) (q : List T) (j : SubId) (r : R)
      → Holds id bus q
      → Kept id bus q (EventBusMessage.poll j r)
  unfolding handle
  poll-Kept id bus q j r h = elim (Bool-cases (j == id)) [
    | inl e ↦
        rw (poll-some bus j q (moved bus j id q e h.0), e)
          (
            rest_of q,
            (rw (lookup-insert id j (rest_of q) bus.event_queues, e) refl, h.1),
            append-nil q ∙ front-rest r q,
          )
    | inr e ↦
        (q, (rw (queue-poll bus j id, e) h.0, rw (poll-recycle bus j) h.1), rw e (append-nil q))
  ]

  batch_poll-Kept :
      (id : SubId) (bus : EventBus T) (q : List T) (j : SubId) (r : R)
      → Holds id bus q
      → Kept id bus q (EventBusMessage.batch_poll j r)
  unfolding handle
  batch_poll-Kept id bus q j r h = elim (Bool-cases (j == id)) [
    | inl e ↦
        rw (batch_poll-some bus j q (moved bus j id q e h.0), e)
          (
            [],
            (rw (lookup-insert id j [] bus.event_queues, e) refl, h.1),
            append-nil q ∙ sym (append-nil q) ∙ sym (append-nil (q ++ [])),
          )
    | inr e ↦ (
      q,
      (rw (queue-batch_poll bus j id, e) h.0, rw (batch_poll-recycle bus j) h.1),
      rw e (append-nil q),
    )
  ]

  handle-Kept :
      (id : SubId) (bus : EventBus T) (q : List T) (m : EventBusMessage T R)
      → ends id m ≡ false
      → IsValid bus
      → Holds id bus q
      → Kept id bus q m
  unfolding handle
  handle-Kept id bus q (EventBusMessage.subscribe r) e v h =
      unfold subscribe in
      (
        q,
        subscribe_at-Holds id bus q (order.first bus.ids) (order.first-some bus.ids) v h,
        append-nil q,
      )
  handle-Kept id bus q (EventBusMessage.unsubscribe j) e v h =
      (q, unsubscribe-Holds delay_delete id bus q j e h, append-nil q)
  handle-Kept id bus q (EventBusMessage.push_event event r) e v h = (
    q ++ event ∷ [],
    (rw (queue-push bus event id, h.0) refl, unfold push_to_event_queues in h.1),
    refl,
  )
  handle-Kept id bus q (EventBusMessage.poll j r) e v h = poll-Kept id bus q j r h
  handle-Kept id bus q (EventBusMessage.batch_poll j r) e v h = batch_poll-Kept id bus q j r h
  handle-Kept id bus q EventBusMessage.clean_up_bg_task e v h = (
    q,
    elim delay_delete as (λ b. Holds id (if b then cleanup bus else bus) q) [
      | true ↦ (rw (queue-cleanup bus id, h.1) h.0, unfold cleanup contains in refl)
      | false ↦ h
    ],
    append-nil q,
  )

  -- A subscriber that stays subscribed receives each event exactly once and in the order of
  -- publication: what it was sent, and then what is left in its queue, is what was pending at the
  -- start, and then what was published since. The identifiers are in order at the start; the
  -- feature delay-delete may be on or off.
  pub run-received :
      (ms : List (EventBusMessage T R)) (id : SubId) (bus : EventBus T) (q : List T)
      → Stays id ms
      → IsValid bus
      → Holds id bus q
      → (q' : List T) × Holds id (run delay_delete order bus ms).0 q'
        × (q ++ published ms ≡ received id bus ms ++ q')
  unfolding run received
  run-received [] id bus q s v h = (q, h, append-nil q)
  run-received (m ∷ ms) id bus q s v h =
      let (q₁, h₁, e₁) = handle-Kept id bus q m s.0 v h in
      let (q₂, h₂, e₂) =
        run-received ms id (handle delay_delete order bus m).0 q₁ s.1
          (handle-IsValid order delay_delete bus m v) h₁ in
      (q₂, h₂, append_step q (event_of m) (published ms) _ _ q₁ q₂ e₁ e₂)
