-- ===== src/EventBus/SameView.antt =====
-- imputio-utils/src/event_bus.rs: the order in which the hash tables of the actor hold their
-- entries. It shows in the identifiers that subscriptions take, and nowhere else.
use toy_io.Common.{
  ◌≡◌, refl, sym, ap, subst, ◌∙◌, ◌||◌, Bool, true, false, Option, none, some, List, [], ◌∷◌, ◌++◌,
  contains, arith, if◌then◌else◌, ◌==◌, Option-cases, inl, inr,
}
use toy_io.EventBus.Protocol.{SubId, EventBusMessage, Answer, subscribed, polled, batch_polled, ok}
use toy_io.EventBus.Lookup.{
  queue, queue-subscribe_at, contains-subscribe_at, queue-unsubscribe_now, contains-unsubscribe_now,
  queue-cleanup, queue-push, queue-poll, queue-batch_poll, poll-ids, batch_poll-ids, poll-recycle,
  batch_poll-recycle, poll-none, poll-some, batch_poll-none, batch_poll-some, front_of,
}
use toy_io.EventBus.{
  EventBus, IterOrder, subscribe, subscribe_at, unsubscribe, unsubscribe_now, unsubscribe_later,
  cleanup, push_to_event_queues, poll, batch_poll, handle, run,
}

pub contains-append_one :
    (j id : SubId) (xs : List SubId) → contains j (xs ++ id ∷ []) ≡ (id == j || contains j xs)
unfolding contains
contains-append_one j id [] = ground arith
contains-append_one j id (x ∷ xs) = ground (arith, contains-append_one j id xs)

module _ {T : Type 0} where
  -- The same queues, the same free identifiers, and the same identifiers to remove.
  pub record SameView (a b : EventBus T) : Type 0 where
    pub queues : (j : SubId) → queue a j ≡ queue b j
    pub ids : (j : SubId) → contains j a.ids ≡ contains j b.ids
    pub recycle : (j : SubId) → contains j a.recycle ≡ contains j b.recycle

  pub poll-answer :
      (a : EventBus T) (id : SubId)
      → (poll a id).1 ≡ ok (elim (queue a id) [ none ↦ none | some q ↦ front_of q ])
  poll-answer a id = elim (Option-cases (queue a id)) [
    | inl e ↦ rw (poll-none a id e, e) refl
    | inr (q, e) ↦ rw (poll-some a id q e, e) refl
  ]

  pub batch_poll-answer :
      (a : EventBus T) (id : SubId)
      → (batch_poll a id).1 ≡ ok (elim (queue a id) [ none ↦ [] | some q ↦ q ])
  batch_poll-answer a id = elim (Option-cases (queue a id)) [
    | inl e ↦ rw (batch_poll-none a id e, e) refl
    | inr (q, e) ↦ rw (batch_poll-some a id q e, e) refl
  ]

  subscribe_at-SameView :
      (a b : EventBus T) (o : Option SubId)
      → SameView a b
      → SameView (subscribe_at a o).0 (subscribe_at b o).0
        × ((subscribe_at a o).1 ≡ (subscribe_at b o).1)
  unfolding subscribe_at
  subscribe_at-SameView a b none v = (v, refl)
  subscribe_at-SameView a b (some id) v = (
    record {
      queues = λ j. rw (queue-subscribe_at a id j, queue-subscribe_at b id j, v.queues j) refl;
      ids = λ j. rw (contains-subscribe_at a id j, contains-subscribe_at b id j, v.ids j) refl;
      recycle = v.recycle;
    },
    refl,
  )

  pub unsubscribe_now-recycle :
      (a : EventBus T) (id : SubId) → (unsubscribe_now a id).recycle ≡ a.recycle
  unfolding unsubscribe_now
  unsubscribe_now-recycle a id = ground arith

  unsubscribe_now-SameView :
      (a b : EventBus T) (id : SubId)
      → SameView a b
      → SameView (unsubscribe_now a id) (unsubscribe_now b id)
  unsubscribe_now-SameView a b id v = record {
    queues = λ j. rw (queue-unsubscribe_now a id j, queue-unsubscribe_now b id j, v.queues j) refl;
    ids = λ j.
        rw (contains-unsubscribe_now a id j, contains-unsubscribe_now b id j, v.queues j, v.ids j)
          refl;
    recycle = λ j. rw (unsubscribe_now-recycle a id, unsubscribe_now-recycle b id) (v.recycle j);
  }

  unsubscribe-SameView :
      (delay_delete : Bool) (a b : EventBus T) (id : SubId)
      → SameView a b
      → SameView (unsubscribe delay_delete a id) (unsubscribe delay_delete b id)
  unfolding unsubscribe unsubscribe_later
  unsubscribe-SameView true a b id v = record {
    queues = v.queues;
    ids = v.ids;
    recycle = λ j.
        rw (contains-append_one j id a.recycle, contains-append_one j id b.recycle, v.recycle j)
          refl;
  }
  unsubscribe-SameView false a b id v = unsubscribe_now-SameView a b id v

  cleanup-SameView : (a b : EventBus T) → SameView a b → SameView (cleanup a) (cleanup b)
  unfolding cleanup
  cleanup-SameView a b v = record {
    queues = λ j. queue-cleanup a j ∙ rw (v.recycle j, v.queues j) (sym (queue-cleanup b j));
    ids = v.ids;
    recycle = λ j. refl;
  }

  push-SameView :
      (a b : EventBus T) (event : T)
      → SameView a b
      → SameView (push_to_event_queues a event).0 (push_to_event_queues b event).0
  push-SameView a b event v = record {
    queues = λ j. rw (queue-push a event j, queue-push b event j, v.queues j) refl;
    ids = λ j. unfold push_to_event_queues in v.ids j;
    recycle = λ j. unfold push_to_event_queues in v.recycle j;
  }

  poll-SameView :
      (a b : EventBus T) (id : SubId)
      → SameView a b
      → SameView (poll a id).0 (poll b id).0 × ((poll a id).1 ≡ (poll b id).1)
  poll-SameView a b id v = (
    record {
      queues = λ j. rw (queue-poll a id j, queue-poll b id j, v.queues j) refl;
      ids = λ j. rw (poll-ids a id, poll-ids b id) (v.ids j);
      recycle = λ j. rw (poll-recycle a id, poll-recycle b id) (v.recycle j);
    },
    rw (poll-answer a id, poll-answer b id, v.queues id) refl,
  )

  batch_poll-SameView :
      (a b : EventBus T) (id : SubId)
      → SameView a b
      → SameView (batch_poll a id).0 (batch_poll b id).0
        × ((batch_poll a id).1 ≡ (batch_poll b id).1)
  batch_poll-SameView a b id v = (
    record {
      queues = λ j. rw (queue-batch_poll a id j, queue-batch_poll b id j, v.queues j) refl;
      ids = λ j. rw (batch_poll-ids a id, batch_poll-ids b id) (v.ids j);
      recycle = λ j. rw (batch_poll-recycle a id, batch_poll-recycle b id) (v.recycle j);
    },
    rw (batch_poll-answer a id, batch_poll-answer b id, v.queues id) refl,
  )

-- A subscription takes the same identifier from both states, whose sets are iterated in the two
-- orders; the other messages take none.
abbrev pub SameChoice :
    {T R : Type 0} → IterOrder → IterOrder → EventBus T → EventBus T → EventBusMessage T R → Type 0
SameChoice order order' a b (EventBusMessage.subscribe r) = order.first a.ids ≡ order'.first b.ids
SameChoice order order' a b _ = Unit

module _ {T R : Type 0} (delay_delete : Bool) (order order' : IterOrder) where
  -- The same at each of these messages, from these states on.
  abbrev pub SameChoices : EventBus T → EventBus T → List (EventBusMessage T R) → Type 0
  SameChoices a b [] = Unit
  SameChoices a b (m ∷ ms) =
      SameChoice order order' a b m
      × SameChoices (handle delay_delete order a m).0 (handle delay_delete order' b m).0 ms

  abbrev pub Alike : EventBus T × List (R × Answer T) → EventBus T × List (R × Answer T) → Type 0
  Alike (a, out) (b, out') = SameView a b × (out ≡ out')

  pub handle-SameView :
      (a b : EventBus T) (m : EventBusMessage T R)
      → SameView a b
      → SameChoice order order' a b m
      → Alike (handle delay_delete order a m) (handle delay_delete order' b m)
  unfolding handle subscribe
  handle-SameView a b (EventBusMessage.subscribe r) v same =
      let (w, e) = subscribe_at-SameView a b (order.first a.ids) v in
      subst
        (λ o.
          Alike
            (
              (subscribe_at a (order.first a.ids)).0,
              (r, subscribed (subscribe_at a (order.first a.ids)).1) ∷ [],
            )
            ((subscribe_at b o).0, (r, subscribed (subscribe_at b o).1) ∷ []))
        same (w, ap (λ x. (r, subscribed x) ∷ []) e)
  handle-SameView a b (EventBusMessage.unsubscribe id) v same =
      (unsubscribe-SameView delay_delete a b id v, refl)
  handle-SameView a b (EventBusMessage.push_event event r) v same =
      (push-SameView a b event v, unfold push_to_event_queues in refl)
  handle-SameView a b (EventBusMessage.poll id r) v same =
      let (w, e) = poll-SameView a b id v in (w, ap (λ x. (r, polled x) ∷ []) e)
  handle-SameView a b (EventBusMessage.batch_poll id r) v same =
      let (w, e) = batch_poll-SameView a b id v in (w, ap (λ x. (r, batch_polled x) ∷ []) e)
  handle-SameView a b EventBusMessage.clean_up_bg_task v same = (of_feature delay_delete, refl)
    where
      of_feature : (d : Bool) → SameView (if d then cleanup a else a) (if d then cleanup b else b)
      of_feature true = cleanup-SameView a b v
      of_feature false = v

  -- The order in which the tables hold their entries matters only for the identifier that a
  -- subscription takes: from two states with the same queues, the same free identifiers and the
  -- same identifiers to remove, whose tables may be iterated in two different orders, any messages
  -- get the same answers, and lead to two such states, if each subscription takes the same
  -- identifier in both.
  pub run-SameView :
      (a b : EventBus T) (ms : List (EventBusMessage T R))
      → SameView a b
      → SameChoices a b ms
      → SameView (run delay_delete order a ms).0 (run delay_delete order' b ms).0
        × ((run delay_delete order a ms).1 ≡ (run delay_delete order' b ms).1)
  unfolding run
  run-SameView a b [] v same = (v, refl)
  run-SameView a b (m ∷ ms) v (now, later) =
      let (w, e) = handle-SameView a b m v now in
      let (w', e') =
        run-SameView (handle delay_delete order a m).0 (handle delay_delete order' b m).0 ms w
          later in
      (w', rw (e, e') refl)
