-- ===== src/Api/Arrival.antt =====
-- imputio/src/lib.rs, imputio/src/executor/handle.rs and imputio/src/io/mod.rs: what an operation
-- that is submitted through the global executor meets on its way to the I/O actor.
use toy_io.Common.{
  ℕ, ◌≡◌, refl, sym, Bool, true, false, Option, none, some, List, [], ◌∷◌, ◌++◌, append-nil,
  get_elem?, set, if◌then◌else◌, Bool-cases, Option-cases, inl, inr,
}
use toy_io.Flume.{Link}
use toy_io.Task.{Poll, ImputioTask}
use toy_io.Io.{IoOp, actor_send_error}
use toy_io.Io.Crates.{Mio}
use toy_io.Io.Poller.{Operation, registration_fd_add, registration_tcp_add}
use toy_io.Io.PollHandle
use toy_io.Executor.Protocol.{Transaction, Turn, actor_rcv, io_poller}
use toy_io.Executor.Protocol
use toy_io.Executor.{Executor, handle, push_to_poller}
use toy_io.Coordinator.{ExecHandleCoordinator, handle_submit_io_op}
use toy_io.Coordinator.Turns.{IsValid, following}
use toy_io.Runtime.Builder.{Result, ok, err, executor_error, internal}
use toy_io.Api.{
  Called, as_runtime, add_operation_to_io_poller, register_fd, register_tcp_socket, check_io,
  interest_or_all,
}
use toy_io.Api.Registration
use toy_io.Api.Channels.{IsIoChannel, IsExecuted}

module _ {E F N Operation R : Type 0}
    (link : Link (Transaction F Operation R) R (Protocol.Result (Unit {0}))) (fairness : Bool)
    (poll_future : E → F → F × Poll (Unit {0})) (send : N → IoOp Operation → Option N)
    (channel : IsIoChannel send) (executed : IsExecuted link fairness poll_future send) where
  open channel use {messages, alive, send-alive}
  open executed use {executor}

  -- What the caller gets, by the state of the executor.
  abbrev pub outcome : Option (Executor F N) → Result (Unit {0})
  outcome none = err (executor_error actor_rcv)
  outcome (some ex) =
      if alive ex.poll_handle then ok tt else err (executor_error (io_poller actor_send_error))

  -- The messages that wait for the I/O actor of an executor.
  abbrev pub inbox : Option (Executor F N) → List (IoOp Operation)
  inbox none = []
  inbox (some ex) = messages ex.poll_handle

  -- What an operation adds to them.
  abbrev pub gained : Operation → Option (Executor F N) → List (IoOp Operation)
  gained op none = []
  gained op (some ex) = if alive ex.poll_handle then IoOp.submit op ∷ [] else []

  -- The queues of an executor.
  abbrev pub queues : Option (Executor F N) → Option (List (List (ImputioTask F)))
  queues none = none
  queues (some ex) = some ex.tasks

  -- Whether the executor and its I/O actor are alive.
  abbrev pub both_alive : Option (Executor F N) → Bool
  both_alive none = false
  both_alive (some ex) = alive ex.poll_handle

  -- The executor keeps its tasks, nobody dies, and the I/O actor gains the operation if it is
  -- alive.
  abbrev pub Gains : Operation → (before after : Option (Executor F N)) → Type 0
  Gains op before after =
      (queues after ≡ queues before)
      × (both_alive after ≡ both_alive before)
      × (inbox after ≡ inbox before ++ gained op before)

  abbrev pub Arrives : Operation → link.Net → link.Net × Protocol.Result (Unit {0}) → Type 0
  Arrives op h (h', r) = (as_runtime r ≡ outcome (executor h)) × Gains op (executor h) (executor h')

  push_to_poller-alive :
      (ex : Executor F N) (op : Operation) (n : N)
      → send ex.poll_handle (IoOp.submit op) ≡ some n
      → push_to_poller send ex op ≡ (record ex { poll_handle = n }, Protocol.ok tt)
  unfolding push_to_poller PollHandle.submit_op
  push_to_poller-alive ex op n e = rw (push_to_poller, PollHandle.submit_op, e) refl

  push_to_poller-gone :
      (ex : Executor F N) (op : Operation)
      → send ex.poll_handle (IoOp.submit op) ≡ none
      → push_to_poller send ex op ≡ (ex, Protocol.err (io_poller actor_send_error))
  unfolding push_to_poller PollHandle.submit_op
  push_to_poller-gone ex op e = rw (push_to_poller, PollHandle.submit_op, e) refl

  handle_submit_io_op-executed :
      (turn : Turn E F Operation R) (op : Operation) (h : link.Net) (ex ex' : Executor F N)
      (r : Protocol.Result (Unit {0}))
      → executor h ≡ some ex
      → push_to_poller send ex op ≡ (ex', r)
      → (h' : link.Net) × (handle_submit_io_op link op h ≡ (h', r)) × (executor h' ≡ some ex')
  unfolding handle_submit_io_op handle
  handle_submit_io_op-executed turn op h ex ex' r here pushed =
      let (reply, h₁) = link.bounded h in
      let (h₂, h₃, sent, got, last) =
        executed.send-handled h₁ ex ex' turn op reply r (rw (executed.bounded-executor h) here)
          (rw (handle, pushed) refl) in
      (h₃, rw (handle_submit_io_op, sent, got) refl, last)

  handle_submit_io_op-gone :
      (op : Operation) (h : link.Net)
      → executor h ≡ none
      → (h' : link.Net) × (handle_submit_io_op link op h ≡ (h', Protocol.err actor_rcv))
        × (executor h' ≡ none)
  unfolding handle_submit_io_op
  handle_submit_io_op-gone op h here =
      let (reply, h₁) = link.bounded h in
      let gone : executor h₁ ≡ none = rw (executed.bounded-executor h) here in
      let refused = executed.send-gone h₁ (Transaction.submit_io_op op reply) gone in
      let (h', got, last) = executed.recv-gone h here in
      (h', rw (handle_submit_io_op, refused, got) refl, last)

  handle_submit_io_op-Arrives :
      (turn : Turn E F Operation R) (op : Operation) (h : link.Net)
      → Arrives op h (handle_submit_io_op link op h)
  handle_submit_io_op-Arrives turn op h = elim (Option-cases (executor h)) [
    | inl here ↦
        let (h', e, last) = handle_submit_io_op-gone op h here in
        rw (here, e, last) (refl, (refl, refl, refl))
    | inr (ex, here) ↦ elim (Bool-cases (alive ex.poll_handle)) [
      | inl up ↦
          let (n, sent, up', more) = send-alive ex.poll_handle (IoOp.submit op) up in
          let (h', e, last) =
            handle_submit_io_op-executed turn op h ex (record ex { poll_handle = n })
              (Protocol.ok tt) here (push_to_poller-alive ex op n sent) in
          rw (here, e, last, up) (refl, (refl, up', more))
      | inr down ↦
          let (h', e, last) =
            handle_submit_io_op-executed turn op h ex ex (Protocol.err (io_poller actor_send_error))
              here
              (push_to_poller-gone ex op
                (channel.send-gone ex.poll_handle (IoOp.submit op) down)) in
          rw (here, e, last, down) (refl, (refl, refl, sym (append-nil (messages ex.poll_handle))))
    ]
  ]

  -- The next handle's executor gets the operation, and the call returns the outcome.
  abbrev pub Reaches : ExecHandleCoordinator link.Net → Operation → Called link → Type 0
  Reaches c op called =
      (h h' : link.Net) × (get_elem? c.handles (following c) ≡ some h)
      × (called
          ≡ some (
            record c { handles = set c.handles (following c) h'; index = following c },
            outcome (executor h),
          ))
      × Gains op (executor h) (executor h')

  pub add_operation-Reaches :
      (turn : Turn E F Operation R) (c : ExecHandleCoordinator link.Net) (op : Operation)
      → IsValid c
      → Reaches c op (add_operation_to_io_poller link true c op)
  add_operation-Reaches turn c op v =
      let (h, found, e) = Registration.add_operation-Submits link c op v in
      let (h', r) = handle_submit_io_op link op h in
      let (same, gains) = handle_submit_io_op-Arrives turn op h in
      (h, h', found, rw (e, same) refl, gains)

module _ (m : Mio) {E F N Notifier R : Type 0}
    (link : Link (Transaction F (Operation m Notifier) R) R (Protocol.Result (Unit {0})))
    (fairness : Bool) (poll_future : E → F → F × Poll (Unit {0}))
    (send : N → IoOp (Operation m Notifier) → Option N) (channel : IsIoChannel send)
    (executed : IsExecuted link fairness poll_future send) where
  pub register_fd-Reaches :
      (turn : Turn E F (Operation m Notifier) R) (c : ExecHandleCoordinator link.Net) (fd : ℕ)
      (interest : Option m.Interest) (notifier : Option Notifier)
      → IsValid c
      → Reaches link fairness poll_future send channel executed c
          (registration_fd_add fd (interest_or_all m interest) notifier)
          (register_fd m link true c fd interest notifier)
  unfolding register_fd check_io
  register_fd-Reaches turn c fd interest notifier v =
      add_operation-Reaches link fairness poll_future send channel executed turn c
        (registration_fd_add fd (interest_or_all m interest) notifier) v

  pub register_tcp_socket-Reaches :
      (turn : Turn E F (Operation m Notifier) R) (c : ExecHandleCoordinator link.Net)
      (listener : m.Listener) (interest : Option m.Interest) (notifier : Option Notifier)
      → IsValid c
      → Reaches link fairness poll_future send channel executed c
          (registration_tcp_add listener (interest_or_all m interest) notifier)
          (register_tcp_socket m link true c listener interest notifier)
  unfolding register_tcp_socket check_io
  register_tcp_socket-Reaches turn c listener interest notifier v =
      add_operation-Reaches link fairness poll_future send channel executed turn c
        (registration_tcp_add listener (interest_or_all m interest) notifier) v

  abbrev pub refused : ExecHandleCoordinator link.Net → Called link
  refused c = some (c, err (internal "IO feature is not currently enabled"))

  -- With the feature io and a coordinator that has handles, a registration of a descriptor or a
  -- listener does not panic. It goes through the executor whose turn it is, which keeps its tasks.
  -- While that executor and its I/O actor are alive, the call returns `Ok`, and the actor has one
  -- more message, the registration with the given interest or else all three. When the I/O actor is
  -- gone, the call returns the executor's error `IoPoller(ActorSendError)`, when the executor is
  -- gone, `ActorRcv`, and no message is added. Without the feature the registration is refused, and
  -- the coordinator stays as it was. `turn` is what the executor's loop meets when it handles the
  -- message.
  pub register-Reaches :
      (turn : Turn E F (Operation m Notifier) R) (c : ExecHandleCoordinator link.Net) (fd : ℕ)
      (listener : m.Listener) (interest : Option m.Interest) (notifier : Option Notifier)
      → IsValid c
      → Reaches link fairness poll_future send channel executed c
          (registration_fd_add fd (interest_or_all m interest) notifier)
          (register_fd m link true c fd interest notifier)
        × Reaches link fairness poll_future send channel executed c
            (registration_tcp_add listener (interest_or_all m interest) notifier)
            (register_tcp_socket m link true c listener interest notifier)
        × (register_fd m link false c fd interest notifier ≡ refused c)
        × (register_tcp_socket m link false c listener interest notifier ≡ refused c)
  unfolding register_fd register_tcp_socket check_io
  register-Reaches turn c fd listener interest notifier v = (
    register_fd-Reaches turn c fd interest notifier v,
    register_tcp_socket-Reaches turn c listener interest notifier v,
    refl,
    refl,
  )
