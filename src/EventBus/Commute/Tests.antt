-- ===== src/EventBus/Commute/Tests.antt =====
-- imputio-utils/src/event_bus.rs: two subscribers, whose tables are held in two orders.
use mathlib.Core.Option.{some-injective}
use mathlib.Core.Quot.{Quot}
use toy_io.Common.{
  ℕ, ◌≤◌, ◌≡◌, refl, sym, true, false, Option, none, some, List, [], ◌∷◌, contains, arith,
  if◌then◌else◌, ltb,
}
use toy_io.Common.Dict.{lookup}
use toy_io.EventBus.Protocol.{SubId, EventBusMessage}
use toy_io.EventBus.SameView.{SameView, run-SameView}
use toy_io.EventBus.Commute.{Call, message, calls_commute}
use toy_io.EventBus
use toy_io.EventBus.Stale.{prefer, prefer-contains}
use toy_io.EventBus.{EventBus, IterOrder, handle, run}

-- The least element comes first.
least : ℕ → List ℕ → ℕ
least x [] = x
least x (y ∷ ys) = if ltb y x then least y ys else least x ys

least_first : List ℕ → Option ℕ
least_first [] = none
least_first (x ∷ xs) = some (least x xs)

least-le : (x : ℕ) (xs : List ℕ) (j : ℕ) → contains j (x ∷ xs) ≡ true → least x xs ≤ j
unfolding least contains
least-le x [] j h = ground arith
least-le x (y ∷ ys) j h =
    ground (arith, least-le x ys j, least-le y ys j, least-le x ys x, least-le y ys y)

least-contains : (x : ℕ) (xs : List ℕ) → contains (least x xs) (x ∷ xs) ≡ true
unfolding least contains
least-contains x [] = ground arith
least-contains x (y ∷ ys) = ground (arith, least-contains x ys, least-contains y ys)

least_first-none : (ids : List SubId) → least_first ids ≡ none → ids ≡ []
unfolding least_first
least_first-none [] h = refl
least_first-none (x ∷ xs) h = cc

least_first-some :
    (ids : List SubId) (id : SubId) → least_first ids ≡ some id → contains id ids ≡ true
unfolding least_first
least_first-some [] id h = cc
least_first-some (x ∷ xs) id h = rw (← some-injective (least x xs) id h) (least-contains x xs)

abbrev by_least : IterOrder
by_least = record {
  first = least_first;
  first-none = least_first-none;
  first-some = least_first-some;
}

abbrev one_order : EventBus ℕ
one_order = record { event_queues = (3, 10 ∷ []) ∷ (4, []) ∷ []; ids = 5 ∷ 7 ∷ []; recycle = [] }

abbrev other_order : EventBus ℕ
other_order = record { event_queues = (4, []) ∷ (3, 10 ∷ []) ∷ []; ids = 7 ∷ 5 ∷ []; recycle = [] }

orders-SameView : SameView one_order other_order
unfolding lookup contains
orders-SameView = record {
  queues = λ j. ground arith;
  ids = λ j. ground arith;
  recycle = λ j. refl;
}

abbrev messages : List (EventBusMessage ℕ ℕ)
messages =
    EventBusMessage.push_event 20 1 ∷ EventBusMessage.subscribe 2 ∷ EventBusMessage.poll 3 3 ∷ []

-- The first table gives its least free identifier, the second one prefers 5.
run-SameView_example :
    SameView (run false by_least one_order messages).0 (run false (prefer 5) other_order messages).0
    × ((run false by_least one_order messages).1 ≡ (run false (prefer 5) other_order messages).1)
unfolding least_first least handle EventBus.push_to_event_queues contains
run-SameView_example =
    run-SameView false by_least (prefer 5) one_order other_order messages orders-SameView
      (tt, (sym (prefer-contains 5 (7 ∷ 5 ∷ []) refl), (tt, tt)))

abbrev read : Call ℕ
read = Call.poll 1

abbrev leave : Call ℕ
leave = Call.unsubscribe

calls_commute_example :
    let (bus₁, out₁) = handle false by_least one_order (message 3 read) in
    let (bus₂, out₂) = handle false by_least bus₁ (message 4 leave) in
    let (bus₃, out₃) = handle false by_least one_order (message 4 leave) in
    let (bus₄, out₄) = handle false by_least bus₃ (message 3 read) in
    (out₁ ≡ out₄)
    × (out₂ ≡ out₃)
    × (◌≡◌ {A = Quot (SameView {T = ℕ})} (Quot.mk bus₂) (Quot.mk bus₄))
calls_commute_example =
    calls_commute false by_least one_order 3 4 read leave (λ e. absurd (omega arith))
