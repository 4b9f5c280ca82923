-- ===== src/Examples/Countdown.antt =====
-- examples/block_on/main.rs: `ExampleTask`, which counts down, and two of them one after the other.
-- What a poll does to the waker is not part of its result.
use toy_io.Common.{
  ℕ, zero, suc, ◌+◌, ◌-◌, ◌<◌, ◌≤◌, ◌≡◌, refl, ◌∙◌, true, false, some, arith, if◌then◌else◌, ◌==◌,
  inl, inr, Bool-cases, ap, leb,
}
use toy_io.Task.{Poll, ready, pending, Priority, run}
use toy_io.Task.Run.{polled, outcome, run-ready}

pub record ExampleTask : Type 0 where
  pub count : ℕ
  pub start : ℕ

unfoldable pub new : ℕ → ExampleTask
new start = record { count = start; start = start }

-- `count.checked_sub(1).unwrap_or_default()` is the subtraction that stops at 0.
unfoldable pub poll : {E : Type 0} → E → ExampleTask → ExampleTask × Poll ℕ
poll env t =
    if t.count == 0 then (t, ready t.start) else (record t { count = t.count - 1 }, pending)

-- The states of `block_on_example`: it awaits the first task or the second.
pub data BlockOnExample : Type 0 where
  one : ExampleTask → ExampleTask → BlockOnExample
  two : ExampleTask → BlockOnExample

unfoldable pub block_on_example : ℕ → ℕ → BlockOnExample
unfolding new
block_on_example first second = one (new first) (new second)

module _ {E : Type 0} where
  unfoldable pub poll_two : E → ExampleTask → BlockOnExample × Poll (Unit {0})
  unfolding poll
  poll_two env t =
      let (t', p) = poll env t in (two t', elim p [ ready _ ↦ ready tt | pending ↦ pending ])

  -- When the first task is ready, the same poll goes on to the second.
  unfoldable pub after_one :
      E → ExampleTask → ExampleTask × Poll ℕ → BlockOnExample × Poll (Unit {0})
  unfolding poll_two
  after_one env u (t, ready _) = poll_two env u
  after_one env u (t, pending) = (one t u, pending)

  unfoldable pub poll_example : E → BlockOnExample → BlockOnExample × Poll (Unit {0})
  unfolding poll after_one
  poll_example env (one t u) = after_one env u (poll env t)
  poll_example env (two u) = poll_two env u

module _ {E : Type 0} (e : E) (count start : ℕ) where
  abbrev pub task : ExampleTask
  task = record { count = count; start = start }

  poll-ready : count ≡ 0 → poll e task ≡ (task, ready start)
  unfolding poll
  poll-ready h = ground arith

  poll-pending : 0 < count → poll e task ≡ (record task { count = count - 1 }, pending)
  unfolding poll
  poll-pending h = ground arith

  poll_two-ready : count ≡ 0 → poll_two e task ≡ (two task, ready tt)
  unfolding poll_two
  poll_two-ready h = rw (poll-ready h, poll_two) refl

  poll_two-pending :
      0 < count → poll_two e task ≡ (two (record task { count = count - 1 }), pending)
  unfolding poll_two
  poll_two-pending h = rw (poll-pending h, poll_two) refl

module _ {E : Type 0} (env : ℕ → E) (start : ℕ) where
  polled-new :
      (n : ℕ)
      → n ≤ start
      → polled poll env n (new start) ≡ record { count = start - n; start = start }
  unfolding polled new
  polled-new zero h = ap (λ c. record { count = c; start = start }) (omega arith)
  polled-new (suc n) h =
      ap (λ t. (poll (env n) t).0) (polled-new n (omega arith))
      ∙ ap (λ r. r.0) (poll-pending (env n) (start - n) start (omega arith))
      ∙ ap (λ c. record { count = c; start = start }) (omega arith)

  outcome-new :
      (n : ℕ)
      → n ≤ start
      → outcome poll env (new start) n
        ≡ (poll (env n) (record { count = start - n; start = start })).1
  outcome-new n h = ap (λ t. (poll (env n) t).1) (polled-new n h)

  -- An `ExampleTask` is ready with its start after exactly one poll more than that number.
  pub run-new :
      (priority : Priority) (fuel : ℕ)
      → start < fuel
      → run poll fuel env (record { future = new start; priority = priority })
        ≡ some (start, suc start)
  run-new priority fuel h =
      run-ready poll env (record { future = new start; priority = priority }) start fuel start h
        (λ i lt.
          outcome-new i (omega arith)
          ∙ ap (λ r. r.1) (poll-pending (env i) (start - i) start (omega arith)))
        (outcome-new start (omega arith)
          ∙ ap (λ r. r.1) (poll-ready (env start) (start - start) start (omega arith)))

module _ {E : Type 0} (env : ℕ → E) (first second : ℕ) where
  -- The state after `n` polls, while no poll is ready.
  abbrev state : ℕ → BlockOnExample
  state n =
      if leb n first
      then one (record { count = first - n; start = first })
          (record { count = second; start = second })
      else two (record { count = first + second - n; start = second })

  poll_example-one :
      (e : E) (t u : ExampleTask)
      → 0 < t.count
      → poll_example e (one t u) ≡ (one (record t { count = t.count - 1 }) u, pending)
  unfolding poll_example after_one
  poll_example-one e t u h = ap (after_one e u) (poll-pending e t.count t.start h)

  poll_example-next :
      (e : E) (t u : ExampleTask) → t.count ≡ 0 → poll_example e (one t u) ≡ poll_two e u
  unfolding poll_example after_one
  poll_example-next e t u h = ap (after_one e u) (poll-ready e t.count t.start h)

  poll_example-two : (e : E) (u : ExampleTask) → poll_example e (two u) ≡ poll_two e u
  unfolding poll_example
  poll_example-two e u = refl

  abbrev left_second : ℕ → ExampleTask
  left_second c = record { count = c; start = second }

  -- A poll with the second task, when the first is done.
  second-pending :
      (n c d : ℕ)
      → 0 < c
      → c - 1 ≡ d
      → poll_two (env n) (left_second c) ≡ (two (left_second d), pending)
  second-pending n c d h e =
      poll_two-pending (env n) c second h
      ∙ ap (λ x. (two (record { count = x; start = second }), pending)) e

  poll-state :
      (n : ℕ) → n < first + second → poll_example (env n) (state n) ≡ (state (suc n), pending)
  poll-state n h = elim (Bool-cases (leb n first)) [
    | inl b ↦ elim (Bool-cases (leb (suc n) first)) [
      | inl c ↦
          rw (b, c)
            (poll_example-one (env n) _ _ (ground (arith, c))
              ∙ ap (λ x. (one (record { count = x; start = first }) (left_second second), pending))
                  (omega arith))
      | inr c ↦
          let same : first ≡ n = ground (arith, b, c) in
          rw (b, c)
            (poll_example-next (env n) _ _ (omega (arith, same))
              ∙ second-pending n second (first + second - suc n) (omega (arith, same))
                  (omega (arith, same)))
    ]
    | inr b ↦
        let c : leb (suc n) first ≡ false = ground (arith, b) in
        rw (b, c)
          (poll_example-two (env n) _
            ∙ second-pending n (first + second - n) (first + second - suc n) (omega arith)
                (omega arith))
  ]

  polled-state :
      (n : ℕ)
      → n ≤ first + second
      → polled poll_example env n (block_on_example first second) ≡ state n
  unfolding polled block_on_example
  polled-state zero h =
      let begin : leb 0 first ≡ true = ground arith in
      let all_left : first - 0 ≡ first = omega arith in rw (begin, all_left) refl
  polled-state (suc n) h =
      ap (λ s. (poll_example (env n) s).0) (polled-state n (omega arith))
      ∙ ap (λ r. r.0) (poll-state n (omega arith))

  last : (poll_example (env (first + second)) (state (first + second))).1 ≡ ready tt
  last = elim (Bool-cases (leb (first + second) first)) [
    | inl b ↦
        let nothing : second ≡ 0 = ground (arith, b) in
        rw b (
          ap (λ r. r.1)
            (poll_example-next (env (first + second)) _ _ (omega (arith, nothing))
              ∙ poll_two-ready (env (first + second)) second second nothing))
    | inr b ↦ rw b (
        ap (λ r. r.1)
          (poll_example-two (env (first + second)) _
            ∙ poll_two-ready (env (first + second)) (first + second - (first + second)) second
                (omega arith)))
  ]

  -- Two tasks that are awaited one after the other: `block_on_example` is ready after exactly as
  -- many polls as the starts of its two tasks and one more; the poll that finishes the first one is
  -- also the first of the second.
  pub block_on_example-run :
      (priority : Priority) (fuel : ℕ)
      → first + second < fuel
      → run poll_example fuel env
          (record { future = block_on_example first second; priority = priority })
        ≡ some (tt, suc (first + second))
  block_on_example-run priority fuel h =
      run-ready poll_example env _ tt fuel (first + second) h
        (λ i lt.
          ap (λ s. (poll_example (env i) s).1) (polled-state i (omega arith))
          ∙ ap (λ r. r.1) (poll-state i lt))
        (ap (λ s. (poll_example (env (first + second)) s).1)
            (polled-state (first + second) (omega arith))
          ∙ last)

-- What the executor's delivery of values relies on.
module _ {E : Type 0} (e : E) (t : ExampleTask) where
  pub poll-falls : (poll e t).1 ≡ pending → (poll e t).0.count < t.count
  unfolding poll
  poll-falls h = ground arith

  pub poll-keeps : (poll e t).1 ≡ pending → (poll e t).0.start ≡ t.start
  unfolding poll
  poll-keeps h = ground arith

  pub poll-right : (val : ℕ) → (poll e t).1 ≡ ready val → val ≡ t.start
  unfolding poll
  poll-right val h = ground arith
