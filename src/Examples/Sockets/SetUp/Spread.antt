-- ===== src/Examples/Sockets/SetUp/Spread.antt =====
-- examples/exec-config/sockets/main.rs: how the listeners of `spawn_tcp_socks` are spread over the
-- executors.
use mathlib.Core.Option.{some-injective}
use toy_io.Common.{
  ℕ, zero, suc, ◌+◌, ◌<◌, ◌≤◌, ◌≡◌, refl, sym, ap, subst, ◌∙◌, ◌≢◌, inl, inr, Bool, true, Option,
  some, List, [], ◌∷◌, length, length-set, get_elem?, get_elem?-set_same, get_elem?-set_other, set,
  arith,
}
use toy_io.Flume.{Link}
use toy_io.Task.{Poll}
use toy_io.Io.{IoOp}
use toy_io.Io.Crates.{Mio}
use toy_io.Io.Poller.{Operation}
use toy_io.Executor.Protocol.{Transaction, Turn}
use toy_io.Executor.Protocol
use toy_io.Coordinator.{ExecHandleCoordinator}
use toy_io.Coordinator.Turns.{IsValid, following, dispatch_lem}
use toy_io.Api.Channels.{IsIoChannel, IsExecuted}
use toy_io.Examples.Sockets.SetUp.Indices.{
  turn_index, next, turn-zero, turn-suc, turn-other, below_zero, zero_add, add_zero, add_next,
  turn_of, turn_of_lt, turn_index-turn_of, same_or_not,
}
use toy_io.Examples.Sockets.SetUp.{
  System, CanMake, make_listeners, both_alive, AllAlive, Got, registration, make_listener_lem,
}

module _ (m : Mio) {E F N Notifier Receiver R : Type 0}
    (link : Link (Transaction F (Operation m Notifier) R) R (Protocol.Result (Unit {0})))
    (sys : System m.Listener Notifier Receiver) (fairness : Bool)
    (poll_future : E → F → F × Poll (Unit {0})) (send : N → IoOp (Operation m Notifier) → Option N)
    (channel : IsIoChannel send) (executed : IsExecuted link fairness poll_future send) {limit : ℕ}
    (can : CanMake m link sys limit) where
  abbrev Alive : List link.Net → Type 0
  Alive = AllAlive m link sys fairness poll_future send channel executed

  abbrev Gets : (hs hs' : List link.Net) → (x j : ℕ) → Type 0
  Gets hs hs' x j =
      Got m link sys fairness poll_future send channel executed hs hs' x
        (registration m link sys fairness poll_future send channel executed can j)

  -- The clones of the listeners, with the channels of their events.
  abbrev pub made : (idx count : ℕ) → List (m.Listener × Receiver)
  made idx zero = []
  made idx (suc count) = (can.listen_clone idx, (sys.unbounded idx).1) ∷ made (suc idx) count

  -- From the handles `hs` to `hs'`, which are `len`: the next `count` of them behind the index `i`
  -- got one listener each, and the others are as they were.
  record Spread (len idx count i : ℕ) (hs hs' : List link.Net) : Type 0 where
    got : (k : ℕ) → k < count → Gets hs hs' (turn_index i len k) (idx + k)
    kept :
        (x : ℕ) → ((k : ℕ) → k < count → turn_index i len k ≢ x) → get_elem? hs' x ≡ get_elem? hs x

  set-Alive :
      (hs : List link.Net) (i : ℕ) (h h' : link.Net)
      → get_elem? hs i ≡ some h
      → both_alive m link sys fairness poll_future send channel executed h' ≡ true
      → Alive hs
      → Alive (set hs i h')
  set-Alive hs i h h' e up a x y = elim (same_or_not i x) [
    | inl s ↦ λ f.
        subst (λ z. both_alive m link sys fairness poll_future send channel executed z ≡ true)
          (some-injective h' y
            (sym (get_elem?-set_same hs i h h' e) ∙ ap (get_elem? (set hs i h')) s ∙ f))
          up
    | inr n ↦ λ f. a x y (sym (get_elem?-set_other hs i x h' n) ∙ f)
  ]

  Spread-step :
      (len idx count i : ℕ) (hs hs' : List link.Net) (h h' : link.Net)
      → i < len
      → suc count ≤ len
      → get_elem? hs (next i len) ≡ some h
      → Gets hs (set hs (next i len) h') (next i len) idx
      → Spread len (suc idx) count (next i len) (set hs (next i len) h') hs'
      → Spread len idx (suc count) i hs hs'
  Spread-step len idx count i hs hs' h h' lt le found one s = record {
    got = got;
    kept = λ x n.
        s.kept x (λ k l.
          subst (λ z. z ≢ x) (sym (turn-suc i len k lt (omega arith))) (n (suc k) (omega arith)))
        ∙ get_elem?-set_other hs (next i len) x h'
            (subst (λ z. z ≢ x) (turn-zero i len lt) (n 0 (omega arith)));
  }
    where
      apart : (k : ℕ) → k < count → turn_index (next i len) len k ≢ next i len
      apart k l =
          subst (λ z. z ≢ next i len) (sym (turn-suc i len k lt (omega arith)))
            (turn-other i len k lt (omega arith))

      got : (k : ℕ) → k < suc count → Gets hs hs' (turn_index i len k) (idx + k)
      got zero l =
          let (a, b, e, f, g) = one in
          let first : Gets hs hs' (next i len) idx = (a, b, e, s.kept (next i len) apart ∙ f, g) in
          subst (λ j. Gets hs hs' (turn_index i len 0) j) (add_zero idx)
            (subst (λ z. Gets hs hs' z idx) (sym (turn-zero i len lt)) first)
      got (suc k) l =
          let below : k < count = omega arith in
          let (a, b, e, f, g) = s.got k below in
          let x = turn_index (next i len) len k in
          let e' : get_elem? hs x ≡ some a =
            sym (get_elem?-set_other hs (next i len) x h' (λ z. apart k below (sym z))) ∙ e in
          let later : Gets hs hs' x (suc idx + k) = (a, b, e', f, g) in
          subst (λ j. Gets hs hs' (turn_index i len (suc k)) j) (add_next idx k)
            (subst (λ z. Gets hs hs' z (suc idx + k)) (turn-suc i len k lt (omega arith)) later)

  make_listeners-Spread :
      (turn : Turn E F (Operation m Notifier) R) (count idx : ℕ)
      (c : ExecHandleCoordinator link.Net)
      → idx + count ≤ limit
      → count ≤ length c.handles
      → IsValid c
      → Alive c.handles
      → (c' : ExecHandleCoordinator link.Net) × (make_listeners m link sys true c idx count
          ≡ some (c', made idx count))
        × Spread (length c.handles) idx count c.index c.handles c'.handles
  unfolding make_listeners
  make_listeners-Spread turn zero idx c small fits v alive =
      (c, refl, record { got = λ k l. absurd (below_zero k l); kept = λ x n. refl })
  make_listeners-Spread turn (suc count) idx c small fits v alive =
      let (h, h', found, e, up, more) =
        make_listener_lem m link sys fairness poll_future send channel executed turn c limit idx can
          (omega arith) v alive in
      let i = following c in
      let hs₁ = set c.handles i h' in
      let c₁ = record c { handles = hs₁; index = i } in
      let (_, _, _, v₁) = dispatch_lem c (λ h. (h', tt)) v in
      let len : length hs₁ ≡ length c.handles = length-set c.handles i h' in
      let (c', e', s) =
        make_listeners-Spread turn count (suc idx) c₁ (omega arith) (omega (arith, len)) v₁
          (set-Alive c.handles i h h' found up alive) in
      (
        c',
        rw (make_listeners, e, e') refl,
        Spread-step (length c.handles) idx count c.index c.handles c'.handles h h' v.inside fits
            found (h, h', found, get_elem?-set_same c.handles i h h' found, more)
            (subst (λ n. Spread n (suc idx) count i hs₁ c'.handles) len s),
      )

  -- One listener for each executor: if all executors and their I/O actors are alive, there are as
  -- many sockets as executors, the sockets can be made, and no other call on the coordinator comes
  -- between the registrations, then the set-up does not panic; it
  -- gives the clones of all listeners with the channels of their events, in order, and the I/O
  -- actor of each executor has exactly one more message. That of the executor `x` registers the
  -- listener whose number `k` is that of the turn of `x`, with its channel.
  pub make_listeners_one_each :
      (turn : Turn E F (Operation m Notifier) R) (c : ExecHandleCoordinator link.Net)
      → length c.handles ≤ limit
      → IsValid c
      → Alive c.handles
      → let n = length c.handles in
        (c' : ExecHandleCoordinator link.Net) × (make_listeners m link sys true c 0 n
          ≡ some (c', made 0 n))
        × ((x : ℕ) → x < n → (k : ℕ) × (turn_index c.index n k ≡ x) × Gets c.handles c'.handles x k)
  make_listeners_one_each turn c small v alive =
      let n = length c.handles in
      let (c', e, s) = make_listeners-Spread turn n 0 c (omega arith) (omega arith) v alive in
      (
        c',
        e,
        λ x l.
            let k = turn_of c.index n x in
            let at = turn_index-turn_of c.index n x v.inside l in
            (
              k,
              at,
              subst (λ z. Gets c.handles c'.handles z k) at
                  (subst (λ j. Gets c.handles c'.handles (turn_index c.index n k) j) (zero_add k)
                    (s.got k (turn_of_lt c.index n x v.inside l))),
            ),
      )
