-- ===== src/Examples/Sockets/SetUp.antt =====
-- examples/exec-config/sockets/main.rs: how `spawn_tcp_socks` makes and registers its listeners.
pub mod Indices
pub mod Spread
mod Tests
use toy_io.Common.{
  ℕ, zero, suc, ◌+◌, ◌-◌, ◌%◌, ◌<◌, ◌≤◌, ◌≡◌, refl, sym, ap, ◌∙◌, ◌≢◌, Bool, true, false, Option,
  none, some, List, [], ◌∷◌, ◌++◌, length, get_elem?, set, if◌then◌else◌, ltb, arith,
}
use toy_io.Flume.{Link}
use toy_io.Task.{Poll}
use toy_io.Io.{IoOp}
use toy_io.Io.Crates.{Mio}
use toy_io.Io.Poller.{Operation, registration_tcp_add}
use toy_io.Executor.Protocol.{Transaction, Turn}
use toy_io.Executor.Protocol
use toy_io.Executor.{Executor}
use toy_io.Coordinator.{ExecHandleCoordinator}
use toy_io.Coordinator.Turns.{IsValid, following, dispatch_lem}
use toy_io.Runtime.Builder.{ok, err}
use toy_io.Api.{Called, interest_or_all, register_tcp_socket}
use toy_io.Api.Arrival
use toy_io.Api.Channels.{IsIoChannel, IsExecuted}
use toy_io.Examples.Sockets.{port}

-- What the system gives for the socket of number `idx`: the listener that is bound to a port,
-- whether `set_nonblocking` succeeds, and the two ends of a channel for its events.
pub record System (Listener Notifier Receiver : Type 0) : Type 0 where
  pub bind : ℕ → Option Listener
  pub set_nonblocking : Listener → Bool
  pub unbounded : ℕ → Notifier × Receiver

-- The port of a socket, while it is below 65536.
port_lem : (limit idx : ℕ) → 3456 + limit ≤ 65536 → idx < limit → port idx ≡ some (3456 + idx)
unfolding port
port_lem limit idx r h =
    let small : idx % 65536 ≡ idx = omega arith in
    let below : ltb (3456 + idx) 65536 ≡ true = ground arith in rw (port, small, below) refl

module _ (m : Mio) {F Notifier Receiver R : Type 0}
    (link : Link (Transaction F (Operation m Notifier) R) R (Protocol.Result (Unit {0})))
    (sys : System m.Listener Notifier Receiver) where
  abbrev Made : Type 0
  Made = Option (ExecHandleCoordinator link.Net × (m.Listener × Receiver))

  -- `expect` on the result of a registration.
  abbrev expect_registered : Called link → m.Listener × Receiver → Made
  expect_registered none made = none
  expect_registered (some (c, err e)) made = none
  expect_registered (some (c, ok _)) made = some (c, made)

  -- The listener is registered, and its clone is kept.
  unfoldable pub register_bound :
      Bool → ExecHandleCoordinator link.Net → ℕ → m.Listener → Option m.Listener → Made
  register_bound io c idx listener none = none
  register_bound io c idx listener (some listen_clone) =
      let (notify_tx, notify_rx) = sys.unbounded idx in
      let called = register_tcp_socket m link io c listener none (some notify_tx) in
      if sys.set_nonblocking listener
      then expect_registered called (listen_clone, notify_rx)
      else none

  -- The closure of the `map`. `none` is a panic of one of its `expect`s.
  unfoldable pub make_listener : Bool → ExecHandleCoordinator link.Net → ℕ → Made
  unfolding register_bound
  make_listener io c idx = elim (port idx) [
    | none ↦ none
    | some p ↦ elim (sys.bind p) [
      | none ↦ none
      | some listener ↦ register_bound io c idx listener (m.try_clone listener)
    ]
  ]

  -- The listeners from number `idx` on, `count` of them.
  unfoldable pub make_listeners :
      Bool
      → ExecHandleCoordinator link.Net
      → (idx count : ℕ) → Option (ExecHandleCoordinator link.Net × List (m.Listener × Receiver))
  unfolding make_listener
  make_listeners io c idx zero = some (c, [])
  make_listeners io c idx (suc count) = elim (make_listener io c idx) [
    | none ↦ none
    | some (c', made) ↦ elim (make_listeners io c' (suc idx) count) [
      | none ↦ none
      | some (last, rest) ↦ some (last, made ∷ rest)
    ]
  ]

  -- The first `limit` sockets can be made: their ports are below 65536 and free, and so on.
  pub record CanMake (limit : ℕ) : Type 0 where
    pub listener : ℕ → m.Listener
    pub listen_clone : ℕ → m.Listener
    pub in_range : 3456 + limit ≤ 65536
    pub bound : (idx : ℕ) → idx < limit → sys.bind (3456 + idx) ≡ some (listener idx)
    pub nonblocking : (idx : ℕ) → idx < limit → sys.set_nonblocking (listener idx) ≡ true
    pub cloned : (idx : ℕ) → idx < limit → m.try_clone (listener idx) ≡ some (listen_clone idx)

module _ (m : Mio) {E F N Notifier Receiver R : Type 0}
    (link : Link (Transaction F (Operation m Notifier) R) R (Protocol.Result (Unit {0})))
    (sys : System m.Listener Notifier Receiver) (fairness : Bool)
    (poll_future : E → F → F × Poll (Unit {0})) (send : N → IoOp (Operation m Notifier) → Option N)
    (channel : IsIoChannel send) (executed : IsExecuted link fairness poll_future send) where
  open executed use {executor}

  abbrev pub both_alive : link.Net → Bool
  both_alive h = Arrival.both_alive link fairness poll_future send channel executed (executor h)

  abbrev pub inbox : link.Net → List (IoOp (Operation m Notifier))
  inbox h = Arrival.inbox link fairness poll_future send channel executed (executor h)

  abbrev pub AllAlive : List link.Net → Type 0
  AllAlive hs = (x : ℕ) (h : link.Net) → get_elem? hs x ≡ some h → both_alive h ≡ true

  -- The message that registers the listener of number `idx`.
  abbrev pub registration : {limit : ℕ} → CanMake m link sys limit → ℕ → IoOp (Operation m Notifier)
  registration can idx = IoOp.submit (
      registration_tcp_add (can.listener idx) (interest_or_all m none) (some (sys.unbounded idx).0))

  -- Handle `x` has had exactly one more message for its I/O actor.
  abbrev pub Got : (hs hs' : List link.Net) → ℕ → IoOp (Operation m Notifier) → Type 0
  Got hs hs' x msg =
      (h h' : link.Net) × (get_elem? hs x ≡ some h)
      × (get_elem? hs' x ≡ some h')
      × (inbox h' ≡ inbox h ++ msg ∷ [])

  outcome_ok :
      (o : Option (Executor F N)) (op : Operation m Notifier)
      → Arrival.both_alive link fairness poll_future send channel executed o ≡ true
      → (Arrival.outcome link fairness poll_future send channel executed o ≡ ok tt)
        × (Arrival.gained link fairness poll_future send channel executed op o
            ≡ IoOp.submit op ∷ [])
  outcome_ok none op e = cc
  outcome_ok (some ex) op e = (rw e refl, rw e refl)

  pub make_listener_lem :
      (turn : Turn E F (Operation m Notifier) R) (c : ExecHandleCoordinator link.Net)
      (limit idx : ℕ) (can : CanMake m link sys limit)
      → idx < limit
      → IsValid c
      → AllAlive c.handles
      → (h h' : link.Net) × (get_elem? c.handles (following c) ≡ some h)
        × (make_listener m link sys true c idx
            ≡ some (
              record c { handles = set c.handles (following c) h'; index = following c },
              (can.listen_clone idx, (sys.unbounded idx).1),
            ))
        × (both_alive h' ≡ true)
        × (inbox h' ≡ inbox h ++ registration can idx ∷ [])
  unfolding make_listener register_bound
  make_listener_lem turn c limit idx can lt v alive =
      let op : Operation m Notifier =
        registration_tcp_add (can.listener idx) (interest_or_all m none)
          (some (sys.unbounded idx).0) in
      let (h, h', found, called, (_, same, more)) =
        (Arrival.register-Reaches m link fairness poll_future send channel executed turn c 0
          (can.listener idx) none (some (sys.unbounded idx).0) v).1 in
      let (fine, one) = outcome_ok (executor h) op (alive (following c) h found) in
      (
        h,
        h',
        found,
        rw
            (
              make_listener,
              port_lem limit idx can.in_range lt,
              can.bound idx lt,
              register_bound,
              can.cloned idx lt,
              called,
              fine,
              can.nonblocking idx lt,
            )
            refl,
        same ∙ alive (following c) h found,
        more ∙ ap (λ l. inbox h ++ l) one,
      )
