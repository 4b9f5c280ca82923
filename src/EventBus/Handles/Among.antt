-- ===== src/EventBus/Handles/Among.antt =====
-- imputio-utils/src/event_bus.rs: `event_poll_matcher` of a subscriber while other clients use the
-- bus. `others n` is what they do to the channel before the poll number `n`.
use native.Mathlib.Decide.{ℕ_discrete}
use toy_io.Common.{
  ℕ, zero, suc, ◌+◌, ◌≤◌, ◌<◌, ◌≡◌, refl, ◌∙◌, sym, ap, subst, Bool, true, false, Option, some,
  List, [], ◌∷◌, ◌++◌, append_assoc, arith, ◌⊎◌, inl, inr, Bool-cases,
}
use toy_io.Flume.{Link, IsServed}
use toy_io.EventBus.Protocol.{EventBusMessage, Answer, Result, ok}
use toy_io.EventBus.Lookup.{queue, front_of, rest_of}
use toy_io.EventBus.Handles
use toy_io.EventBus.Handles.{SubHandle}
use toy_io.EventBus.Handles.Matching.{poll_lem}
use toy_io.EventBus.Matcher.{
  breaks, poll_loop, poll_matcher, event_handler, batch_handler, Notify, notices_of,
}
use toy_io.EventBus.{EventBus, IterOrder, handle}

module _ {O : Type 0} (polls : ℕ → Result O) (handler : O → Bool) where
  later :
      (n k : ℕ) → n ≤ k → breaks handler (polls n) ≡ false → breaks handler (polls k) ≡ true → n < k
  later n k lo e now = elim (ℕ_discrete n k) [
    | yes same ↦
        let wrong : true ≡ false = sym now ∙ ap (λ i. breaks handler (polls i)) (sym same) ∙ e in cc
    | no ne ↦ omega arith
  ]

  -- The loop ends at the latest at a poll that fails or that the handler accepts.
  poll_loop-ends :
      (fuel n k : ℕ)
      → n ≤ k
      → k < n + fuel
      → breaks handler (polls k) ≡ true
      → (last : ℕ) × (poll_loop fuel polls handler n ≡ some last)
  unfolding poll_loop
  poll_loop-ends zero n k lo hi now = absurd (omega arith)
  poll_loop-ends (suc fuel) n k lo hi now = elim (Bool-cases (breaks handler (polls n))) [
    | inl e ↦ (suc n, rw e refl)
    | inr e ↦
        let ne : n < k = later n k lo e now in
        let (last, r) = poll_loop-ends fuel (suc n) k (omega (arith, ne)) (omega (arith, hi)) now in
        (last, rw (poll_loop, e) r)
  ]

  poll_matcher-ends :
      {S : Type 0} (notify : Option (Notify S)) (fuel k : ℕ)
      → k < fuel
      → breaks handler (polls k) ≡ true
      → (n : ℕ) × (poll_matcher fuel polls handler notify ≡ some (n, notices_of notify, ok tt))
  unfolding poll_matcher
  poll_matcher-ends notify fuel k lt now =
      let (last, r) = poll_loop-ends fuel 0 k (omega arith) (omega (arith, lt)) now in
      (last, rw (r, poll_matcher))

module _ {T : Type 0} (matcher : T → Bool) where
  -- Where the first accepted event of a list stands.
  abbrev Split : List T → Type 0
  Split q = (xs : List T) × (y : T) × (ys : List T) × (q ≡ xs ++ y ∷ ys) × (matcher y ≡ true)

  batch_handler-Split : (q : List T) → batch_handler matcher q ≡ true → Split q
  unfolding batch_handler
  batch_handler-Split [] h = cc
  batch_handler-Split (x ∷ q) h = elim (Bool-cases (matcher x)) [
    | inl e ↦ ([], x, q, refl, e)
    | inr e ↦
        let (xs, y, ys, same, m) = batch_handler-Split q (rw e at h) in
        (x ∷ xs, y, ys, ap (◌∷◌ x) same, m)
  ]

module _ {T R : Type 0} (link : Link (EventBusMessage T R) R (Answer T))
    (others : ℕ → link.Net → link.Net) where
  -- The network after `n` polls.
  unfoldable pub after_turns : link.Net → SubHandle → ℕ → link.Net
  after_turns net h zero = net
  after_turns net h (suc n) = (Handles.poll link (others n (after_turns net h n)) h).0

  abbrev pub poll_at : link.Net → SubHandle → ℕ → Result (Option T)
  poll_at net h n = (Handles.poll link (others n (after_turns net h n)) h).1

  -- `event_poll_matcher`, with other clients between its polls.
  unfoldable pub event_poll_matcher_among :
      {S : Type 0}
      → ℕ
      → link.Net
      → SubHandle
      → (T → Bool)
      → Option (Notify S)
      → Option (ℕ × List S × Result (Unit {0}))
  unfolding after_turns
  event_poll_matcher_among fuel net h matcher notify =
      poll_matcher fuel (poll_at net h) (event_handler matcher) notify

module _ {T R : Type 0} (link : Link (EventBusMessage T R) R (Answer T)) (delay_delete : Bool)
    (order : IterOrder) (served : IsServed link (handle {T = T} {R = R} delay_delete order)) where
  open served use {actor}

  -- A channel whose actor has this queue for the subscriber.
  abbrev pub HasQueue : SubHandle → link.Net → List T → Type 0
  HasQueue h net q = (bus : EventBus T) × (actor net ≡ some bus) × (queue bus h.id ≡ some q)

module _ {T R : Type 0} (link : Link (EventBusMessage T R) R (Answer T)) (delay_delete : Bool)
    (order : IterOrder) (served : IsServed link (handle {T = T} {R = R} delay_delete order))
    (others : ℕ → link.Net → link.Net) (batch : ℕ → List T) (h : SubHandle) where
  abbrev Has : link.Net → List T → Type 0
  Has = HasQueue link delay_delete order served h

  module _
      (grows : (n : ℕ) (net : link.Net) (q : List T)
        → Has net q
        → Has (others n net) (q ++ batch n))
      (net : link.Net) (matcher : T → Bool) where
    abbrev Breaks : ℕ → Type 0
    Breaks k = breaks (event_handler matcher) (poll_at link others net h k) ≡ true

    -- What a poll gives, and what it leaves.
    turn :
        (n : ℕ) (q : List T)
        → Has (others n (after_turns link others net h n)) q
        → (poll_at link others net h n ≡ ok (front_of q))
          × Has (after_turns link others net h (suc n)) (rest_of q)
    unfolding after_turns
    turn n q (bus, e, has) =
        let (r, bus', after, left) =
          poll_lem link delay_delete order served (others n (after_turns link others net h n)) bus h
            q e has in
        (r, (bus', after, left))

    -- An accepted event that waits in the queue is found.
    found-waiting :
        (xs : List T) (y : T) (ys : List T) (n : ℕ)
        → Has (others n (after_turns link others net h n)) (xs ++ y ∷ ys)
        → matcher y ≡ true
        → (k : ℕ) × Breaks k
    unfolding event_handler
    found-waiting [] y ys n has m = (n, rw ((turn n (y ∷ ys) has).0, m) refl)
    found-waiting (x ∷ xs) y ys n has m =
        found-waiting xs y (ys ++ batch (suc n)) (suc n)
          (subst (Has (others (suc n) (after_turns link others net h (suc n))))
            (append_assoc xs (y ∷ ys) (batch (suc n)))
            (grows (suc n) (after_turns link others net h (suc n)) (xs ++ y ∷ ys)
              (turn n (x ∷ xs ++ y ∷ ys) has).1))
          m

    -- An accepted event that is published before the poll number `n + m` is found.
    found-later :
        (m n : ℕ) (q xs : List T) (y : T) (ys : List T)
        → Has (after_turns link others net h n) q
        → batch (n + m) ≡ xs ++ y ∷ ys
        → matcher y ≡ true
        → (k : ℕ) × Breaks k
    found-later zero n q xs y ys has e accepts =
        let same : n ≡ n + 0 = omega arith in
        found-waiting (q ++ xs) y ys n
          (subst (Has (others n (after_turns link others net h n)))
            (ap (◌++◌ q) (ap batch same ∙ e) ∙ sym (append_assoc q xs (y ∷ ys)))
            (grows n (after_turns link others net h n) q has))
          accepts
    found-later (suc m) n q xs y ys has e accepts =
        let same : suc n + m ≡ n + suc m = omega arith in
        found-later m (suc n) (rest_of (q ++ batch n)) xs y ys
          (turn n (q ++ batch n) (grows n (after_turns link others net h n) q has)).1
          (ap batch same ∙ e) accepts

    -- The matcher ends although other clients use the bus between its polls: let what they do
    -- before the poll number `n` only add the events `batch n` at the end of this subscriber's
    -- queue, and let one of the events that wait at the start, or one of a batch, be accepted. Then
    -- there is a number of polls after which, with any more fuel, the matcher has ended, with
    -- `Ok(())` and its notice sent once if the receiver is still there. The channel of the notice
    -- must have room.
    pub event_poll_matcher_ends :
        {S : Type 0} (q : List T) (notify : Option (Notify S))
        → Has net q
        → (batch_handler matcher q ≡ true) ⊎ ((m : ℕ) × (batch_handler matcher (batch m) ≡ true))
        → (bound : ℕ) × ((fuel : ℕ)
            → bound < fuel
            → (n : ℕ) × (event_poll_matcher_among link others fuel net h matcher notify
                ≡ some (n, notices_of notify, ok tt)))
    unfolding event_poll_matcher_among poll_matcher after_turns
    event_poll_matcher_ends q notify has arrives =
        let (k, b) = breaks_at arrives in
        (
          k,
          λ fuel lt.
              poll_matcher-ends (poll_at link others net h) (event_handler matcher) notify fuel k lt
                b,
        )
      where
        breaks_at :
            (batch_handler matcher q ≡ true) ⊎ ((m : ℕ) × (batch_handler matcher (batch m) ≡ true))
            → (k : ℕ) × Breaks k
        breaks_at (inl w) =
            let (xs, y, ys, e, accepts) = batch_handler-Split matcher q w in
            found-waiting xs y (ys ++ batch 0) 0
              (subst (Has (others 0 net))
                (ap (λ l. l ++ batch 0) e ∙ append_assoc xs (y ∷ ys) (batch 0)) (grows 0 net q has))
              accepts
        breaks_at (inr (m, w)) =
            let (xs, y, ys, e, accepts) = batch_handler-Split matcher (batch m) w in
            let same : 0 + m ≡ m = omega arith in
            found-later m 0 q xs y ys has (ap batch same ∙ e) accepts
