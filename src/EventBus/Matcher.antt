-- ===== src/EventBus/Matcher.antt =====
-- imputio-utils/src/event_bus.rs: the polling loop `poll_matcher` and its two instances. `polls n`
-- is what the (n+1)-th call of the polling function gives, and `notices` what comes into
-- the channel of the notifier.
use toy_io.Common.{
  ℕ, zero, suc, ◌+◌, ◌≤◌, ◌<◌, ◌≡◌, refl, Bool, true, false, Option, none, some, List, [], ◌∷◌,
  arith, if◌then◌else◌, ◌↔◌, get_elem?, Bool-cases, inl, inr,
}
use native.Mathlib.Decide.{ℕ_discrete}
use toy_io.EventBus.Protocol.{Result, ok, err}

abbrev pub breaks : {O : Type 0} → (O → Bool) → Result O → Bool
breaks handler (ok event) = handler event
breaks handler (err e) = true

-- The `loop` of `poll_matcher`, with fuel: the number of polls made when it breaks, because the
-- handler accepts or the poll fails. `none`: it still polls when the fuel is used up.
unfoldable pub poll_loop : {O : Type 0} → ℕ → (ℕ → Result O) → (O → Bool) → ℕ → Option ℕ
poll_loop zero polls handler n = none
poll_loop (suc fuel) polls handler n =
    let rest = poll_loop fuel polls handler (suc n) in
    if breaks handler (polls n) then some (suc n) else rest

-- A notice, and whether the receiver of the channel that it is for is still there.
abbrev pub Notify : Type 0 → Type 0
Notify S = S × Bool

-- What `notify.send` puts into the channel. A send that fails is logged, and no more.
abbrev pub notices_of : {S : Type 0} → Option (Notify S) → List S
notices_of none = []
notices_of (some (s, true)) = s ∷ []
notices_of (some (s, false)) = []

-- After the loop: the notice is sent if there is one, and the result is `Ok(())` whatever happened.
-- The channel must be unbounded, as in the events example, or have room: a full one would keep the
-- call waiting.
unfoldable pub poll_matcher :
    {O S : Type 0}
    → ℕ
    → (ℕ → Result O)
    → (O → Bool)
    → Option (Notify S)
    → Option (ℕ × List S × Result (Unit {0}))
unfolding poll_loop
poll_matcher fuel polls handler notify = elim (poll_loop fuel polls handler 0) [
  | none ↦ none
  | some n ↦ some (n, notices_of notify, ok tt)
]

-- The handler of `event_poll_matcher`.
unfoldable pub event_handler : {T : Type 0} → (T → Bool) → Option T → Bool
event_handler matcher none = false
event_handler matcher (some ev) = if matcher ev then true else false

-- The handler of `event_batch_poll_matcher`: the `for` loop with its early return.
unfoldable pub batch_handler : {T : Type 0} → (T → Bool) → List T → Bool
batch_handler matcher [] = false
batch_handler matcher (ev ∷ events) =
    let rest = batch_handler matcher events in if matcher ev then true else rest

module _ {O : Type 0} (polls : ℕ → Result O) (handler : O → Bool) where
  poll_loop-breaks :
      (fuel n k : ℕ)
      → n ≤ k
      → k < n + fuel
      → ((i : ℕ) → i < k → breaks handler (polls i) ≡ false)
      → breaks handler (polls k) ≡ true
      → poll_loop fuel polls handler n ≡ some (suc k)
  unfolding poll_loop
  poll_loop-breaks zero n k lo hi before now = absurd (omega arith)
  poll_loop-breaks (suc fuel) n k lo hi before now = elim (ℕ_discrete n k) [
    | yes e ↦ rw (e, now)
    | no ne ↦
        let early : breaks handler (polls n) ≡ false = before n (omega arith) in
        rw early (poll_loop-breaks fuel (suc n) k (omega arith) (omega arith) before now)
  ]

  poll_loop-polls :
      (fuel n : ℕ)
      → ((i : ℕ) → i < n + fuel → breaks handler (polls i) ≡ false)
      → poll_loop fuel polls handler n ≡ none
  unfolding poll_loop
  poll_loop-polls zero n before = refl
  poll_loop-polls (suc fuel) n before =
      let early : breaks handler (polls n) ≡ false = before n (omega arith) in
      rw early (poll_loop-polls fuel (suc n) (λ i h. before i (omega arith)))

module _ {O S : Type 0} (polls : ℕ → Result O) (handler : O → Bool)
    (notify : Option (Notify S)) where
  -- The loop ends at the first poll that fails or that the handler accepts, after that many polls;
  -- then the notice is sent once if there is one, and the result is `Ok(())`, after a failed poll
  -- too. Any fuel above the number of the poll is enough.
  pub poll_matcher_ends :
      (fuel k : ℕ)
      → k < fuel
      → ((i : ℕ) → i < k → breaks handler (polls i) ≡ false)
      → breaks handler (polls k) ≡ true
      → poll_matcher fuel polls handler notify ≡ some (suc k, notices_of notify, ok tt)
  unfolding poll_matcher
  poll_matcher_ends fuel k h before now =
      rw (
        poll_loop-breaks polls handler fuel 0 k (omega arith) (omega arith) before now,
        poll_matcher,
      )

  -- While no poll fails and the handler accepts none, the loop polls on, and sends no notice.
  pub poll_matcher_polls :
      (fuel : ℕ)
      → ((i : ℕ) → i < fuel → breaks handler (polls i) ≡ false)
      → poll_matcher fuel polls handler notify ≡ none
  unfolding poll_matcher
  poll_matcher_polls fuel before =
      rw (poll_loop-polls polls handler fuel 0 (λ i h. before i (omega arith)), poll_matcher)

module _ {T : Type 0} (matcher : T → Bool) where
  abbrev Accepts : List T → Type 0
  Accepts events = (i : ℕ) × (event_handler matcher (get_elem? events i) ≡ true)

  batch_handler-Accepts : (events : List T) → batch_handler matcher events ≡ true → Accepts events
  unfolding batch_handler event_handler
  batch_handler-Accepts [] h = cc
  batch_handler-Accepts (x ∷ events) h = elim (Bool-cases (matcher x)) [
    | inl e ↦ (0, rw e)
    | inr e ↦ let (i, p) = batch_handler-Accepts events (rw e at h) in (suc i, p)
  ]

  Accepts-batch_handler :
      (events : List T) (i : ℕ)
      → event_handler matcher (get_elem? events i) ≡ true
      → batch_handler matcher events ≡ true
  unfolding batch_handler event_handler
  Accepts-batch_handler [] i h = cc
  Accepts-batch_handler (x ∷ events) zero h = ground arith
  Accepts-batch_handler (x ∷ events) (suc i) h =
      let rest = Accepts-batch_handler events i h in ground arith

  -- The batch handler accepts a batch exactly when the handler for single events accepts one of the
  -- events in it.
  pub batch_handler_iff :
      (events : List T)
      → (batch_handler matcher events ≡ true)
        ↔ ((i : ℕ) × (event_handler matcher (get_elem? events i) ≡ true))
  batch_handler_iff events =
      (batch_handler-Accepts events, λ (i, p). Accepts-batch_handler events i p)
