-- ===== src/EventBus/Commute.antt =====
-- imputio-utils/src/event_bus.rs: what the calls of one subscriber mean for the others. The view of
-- the bus is a quotient: its states up to the order in which the hash tables hold their entries and
-- the order and number of the entries of `recycle`, whose identifiers are all removed together.
mod Tests
use mathlib.Core.Option
use mathlib.Core.Quot
use mathlib.Core.Quot.{Quot}
use toy_io.Common.{
  ℕ, ◌≡◌, ◌≢◌, refl, sym, ap, ◌∙◌, ◌||◌, Bool, true, false, Option, none, some, List, [], ◌∷◌, ◌++◌,
  contains, arith, if◌then◌else◌, ◌==◌, is_some,
}
use toy_io.EventBus.Protocol.{SubId, EventBusMessage, Answer, polled, batch_polled, ok}
use toy_io.EventBus.Lookup.{
  queue, queue-unsubscribe_now, contains-unsubscribe_now, queue-poll, queue-batch_poll, poll-ids,
  batch_poll-ids, poll-recycle, batch_poll-recycle, front_of, rest_of,
}
use toy_io.EventBus.SameView.{
  SameView, contains-append_one, poll-answer, batch_poll-answer, unsubscribe_now-recycle,
}
use toy_io.EventBus
use toy_io.EventBus.{EventBus, IterOrder, unsubscribe_later, handle}

-- The calls of a subscriber that has an identifier.
pub data Call (R : Type 0) : Type 0 where
  unsubscribe : Call R
  poll : R → Call R
  batch_poll : R → Call R

abbrev pub message : {T R : Type 0} → SubId → Call R → EventBusMessage T R
message id Call.unsubscribe = EventBusMessage.unsubscribe id
message id (Call.poll r) = EventBusMessage.poll id r
message id (Call.batch_poll r) = EventBusMessage.batch_poll id r

abbrev listed_after : {R : Type 0} → Bool → Call R → Bool → Bool
listed_after delay_delete Call.unsubscribe b = if delay_delete then true else b
listed_after delay_delete _ b = b

-- Two changes, of one place each.
if_comm :
    {A : Type 0} (id id' j : ℕ) (f g : A → A) (x : A)
    → id ≢ id'
    → (if id' == j then g (if id == j then f x else x) else if id == j then f x else x)
      ≡ (if id == j then f (if id' == j then g x else x) else if id' == j then g x else x)
if_comm id id' j f g x ne = ground arith

-- The same, where a change depends on a second value, which changes likewise.
if_comm_with :
    {A B : Type 0} (id id' j : ℕ) (f g : A → B → B) (a a₁ a₃ a' a'' : A) (b : B)
    → id ≢ id'
    → a₁ ≡ (if id == j then a' else a)
    → a₃ ≡ (if id' == j then a'' else a)
    → (if id' == j then g a₁ (if id == j then f a b else b) else if id == j then f a b else b)
      ≡ (if id == j then f a₃ (if id' == j then g a b else b) else if id' == j then g a b else b)
if_comm_with id id' j f g a a₁ a₃ a' a'' b ne e e' = ground arith

module _ {T R : Type 0} (delay_delete : Bool) where
  -- What a call makes of the caller's own queue, of the question whether its identifier is free,
  -- and of the question whether it is to be removed.
  abbrev queue_after : Call R → Option (List T) → Option (List T)
  queue_after Call.unsubscribe q = if delay_delete then q else none
  queue_after (Call.poll r) q = Option.map rest_of q
  queue_after (Call.batch_poll r) q = Option.map (λ _. []) q

  abbrev free_after : Call R → Option (List T) → Bool → Bool
  free_after Call.unsubscribe q b = if delay_delete then b else is_some q || b
  free_after _ q b = b

  abbrev out_of : Call R → Option (List T) → List (R × Answer T)
  out_of Call.unsubscribe q = []
  out_of (Call.poll r) q = (r, polled (ok (elim q [ none ↦ none | some q ↦ front_of q ]))) ∷ []
  out_of (Call.batch_poll r) q = (r, batch_polled (ok (elim q [ none ↦ [] | some q ↦ q ]))) ∷ []

module _ {T R : Type 0} (delay_delete : Bool) (order : IterOrder) where
  abbrev after : EventBus T → SubId → Call R → EventBus T
  after bus id call = (handle delay_delete order bus (message id call)).0

  queue-call :
      (bus : EventBus T) (id j : SubId) (call : Call R)
      → queue (after bus id call) j
        ≡ (if id == j then queue_after delay_delete call (queue bus j) else queue bus j)
  unfolding handle EventBus.unsubscribe unsubscribe_later
  queue-call bus id j Call.unsubscribe = of_feature delay_delete
    where
      of_feature :
          (d : Bool)
          → queue (EventBus.unsubscribe d bus id) j
            ≡ (if id == j then (if d then queue bus j else none) else queue bus j)
      of_feature true = ground arith
      of_feature false = queue-unsubscribe_now bus id j
  queue-call bus id j (Call.poll r) = queue-poll bus id j
  queue-call bus id j (Call.batch_poll r) = queue-batch_poll bus id j

  free-call :
      (bus : EventBus T) (id j : SubId) (call : Call R)
      → contains j (after bus id call).ids ≡ (
          if id == j
          then free_after delay_delete call (queue bus j) (contains j bus.ids)
          else contains j bus.ids)
  unfolding handle EventBus.unsubscribe unsubscribe_later
  free-call bus id j Call.unsubscribe = of_feature delay_delete
    where
      of_feature :
          (d : Bool)
          → contains j (EventBus.unsubscribe d bus id).ids ≡ (
              if id == j
              then (if d then contains j bus.ids else is_some (queue bus j) || contains j bus.ids)
              else contains j bus.ids)
      of_feature true = ground arith
      of_feature false = contains-unsubscribe_now bus id j ∙ (ground arith)
  free-call bus id j (Call.poll r) = rw (poll-ids bus id) (ground arith)
  free-call bus id j (Call.batch_poll r) = rw (batch_poll-ids bus id) (ground arith)

  listed-call :
      (bus : EventBus T) (id j : SubId) (call : Call R)
      → contains j (after bus id call).recycle ≡ (
          if id == j
          then listed_after delay_delete call (contains j bus.recycle)
          else contains j bus.recycle)
  unfolding handle EventBus.unsubscribe unsubscribe_later
  listed-call bus id j Call.unsubscribe = of_feature delay_delete
    where
      of_feature :
          (d : Bool)
          → contains j (EventBus.unsubscribe d bus id).recycle ≡ (
              if id == j
              then (if d then true else contains j bus.recycle)
              else contains j bus.recycle)
      of_feature true = contains-append_one j id bus.recycle ∙ (ground arith)
      of_feature false = rw (unsubscribe_now-recycle bus id) (ground arith)
  listed-call bus id j (Call.poll r) = rw (poll-recycle bus id) (ground arith)
  listed-call bus id j (Call.batch_poll r) = rw (batch_poll-recycle bus id) (ground arith)

  out-call :
      (bus : EventBus T) (id : SubId) (call : Call R)
      → (handle delay_delete order bus (message id call)).1
        ≡ out_of delay_delete call (queue bus id)
  unfolding handle
  out-call bus id Call.unsubscribe = refl
  out-call bus id (Call.poll r) = ap (λ x. (r, polled x) ∷ []) (poll-answer bus id)
  out-call bus id (Call.batch_poll r) =
      ap (λ x. (r, batch_polled x) ∷ []) (batch_poll-answer bus id)

  -- Subscribers do not disturb each other: an unsubscription, poll or batch poll of one subscriber
  -- commutes with one of another. In either order they get the same answers, and lead to the same
  -- view of the bus: each identifier has the same queue, is free in both or in neither, and is
  -- listed for its removal in both or in neither. New subscriptions are not among these calls, as
  -- the identifier that one takes depends on those that are free.
  pub calls_commute :
      (bus : EventBus T) (id id' : SubId) (call call' : Call R)
      → id ≢ id'
      → let (bus₁, out₁) = handle delay_delete order bus (message id call) in
        let (bus₂, out₂) = handle delay_delete order bus₁ (message id' call') in
        let (bus₃, out₃) = handle delay_delete order bus (message id' call') in
        let (bus₄, out₄) = handle delay_delete order bus₃ (message id call) in
        (out₁ ≡ out₄)
        × (out₂ ≡ out₃)
        × (◌≡◌ {A = Quot (SameView {T = T})} (Quot.mk bus₂) (Quot.mk bus₄))
  calls_commute bus id id' call call' ne =
      let bus₁ = after bus id call in
      let bus₃ = after bus id' call' in
      (
        out-call bus id call ∙ sym (out_same id id' call call' ne),
        out_same id' id call' call (λ e. ne (sym e)) ∙ sym (out-call bus id' call'),
        Quot.sound (record {
          queues = λ j.
              rw
                (
                  queue-call bus₁ id' j call',
                  queue-call bus id j call,
                  queue-call bus₃ id j call,
                  queue-call bus id' j call',
                )
                (if_comm id id' j (queue_after delay_delete call) (queue_after delay_delete call')
                  (queue bus j) ne);
          ids = λ j.
              rw
                (
                  free-call bus₁ id' j call',
                  free-call bus id j call,
                  free-call bus₃ id j call,
                  free-call bus id' j call',
                )
                (if_comm_with id id' j (free_after delay_delete call)
                  (free_after delay_delete call') (queue bus j) (queue bus₁ j) (queue bus₃ j)
                  (queue_after delay_delete call (queue bus j))
                  (queue_after delay_delete call' (queue bus j)) (contains j bus.ids) ne
                  (queue-call bus id j call) (queue-call bus id' j call'));
          recycle = λ j.
              rw
                (
                  listed-call bus₁ id' j call',
                  listed-call bus id j call,
                  listed-call bus₃ id j call,
                  listed-call bus id' j call',
                )
                (if_comm id id' j (listed_after delay_delete call) (listed_after delay_delete call')
                  (contains j bus.recycle) ne);
        }),
      )
    where
      out_same :
          (i i' : SubId) (c c' : Call R)
          → i ≢ i'
          → (handle delay_delete order (after bus i' c') (message i c)).1
            ≡ out_of delay_delete c (queue bus i)
      out_same i i' c c' n =
          let other : (i' == i) ≡ false = ground (arith, n) in
          out-call (after bus i' c') i c
          ∙ ap (out_of delay_delete c) (queue-call bus i' i c' ∙ rw other refl)
