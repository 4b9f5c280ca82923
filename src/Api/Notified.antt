-- ===== src/Api/Notified.antt =====
-- imputio/src/lib.rs, imputio/src/executor/handle.rs, imputio/src/io/mod.rs and
-- imputio/src/io/epoll.rs: a registration, from the call to the notice.
mod Tests
use mathlib.Core.List.{Memᴰ}
use mathlib.Core.Option.{some-injective}
use toy_io.Common.{
  ℕ, ◌≡◌, refl, sym, ap, subst, ◌∙◌, Bool, true, Option, none, some, List, [], ◌∷◌, ◌++◌, get_elem?,
  set, get_elem?-set_same, Option-cases, inl, inr,
}
use toy_io.Common.Dict.{lookup}
use toy_io.Flume.{Link}
use toy_io.Task.{Poll}
use toy_io.Io.{IoOp}
use toy_io.Io.Crates.{Mio, Slab}
use toy_io.Io.Poller.{Operation, registration_fd_add, registration_tcp_add, Poller, rw_interests}
use toy_io.Io.PollHandle
use toy_io.Io.Actor.{run_loop}
use toy_io.Io.Actor.Plain
use toy_io.Io.Actor.Notices.{turns_of, submit_poll-Memᴰ, submit_tcp_poll-Memᴰ}
use toy_io.Executor.Protocol.{Transaction, Turn}
use toy_io.Executor.Protocol
use toy_io.Executor.{Executor, poll_io}
use toy_io.Coordinator.{ExecHandleCoordinator}
use toy_io.Coordinator.Turns.{IsValid, following}
use toy_io.Runtime.Builder.{ok}
use toy_io.Api.{Called, register_fd, register_tcp_socket, interest_or_all}
use toy_io.Api.Arrival
use toy_io.Api.Channels.{IsIoChannel, IsExecuted}
use toy_io.Api.Arrival.{register_fd-Reaches, register_tcp_socket-Reaches}

module _ (m : Mio) {E F N Notifier R : Type 0}
    (link : Link (Transaction F (Operation m Notifier) R) R (Protocol.Result (Unit {0})))
    (fairness : Bool) (poll_future : E → F → F × Poll (Unit {0}))
    (send : N → IoOp (Operation m Notifier) → Option N) (channel : IsIoChannel send)
    (executed : IsExecuted link fairness poll_future send)
    (slab : Slab (Operation m Notifier)) where
  -- A poll of an executor with the feature io tells the living I/O actor to poll.
  poll_io-messages :
      (ex : Executor F N)
      → channel.alive ex.poll_handle ≡ true
      → channel.messages (poll_io true fairness poll_future send ex).poll_handle
        ≡ channel.messages ex.poll_handle ++ IoOp.poll ∷ []
  unfolding poll_io PollHandle.poll
  poll_io-messages ex up =
      let (n, sent, _, more) = channel.send-alive ex.poll_handle IoOp.poll up in
      rw (poll_io, PollHandle.poll, sent) more

  -- The executor after an operation that it could pass on to an empty inbox.
  gained_executor :
      (ex : Executor F N) (op : Operation m Notifier) (after : Option (Executor F N))
      → channel.alive ex.poll_handle ≡ true
      → channel.messages ex.poll_handle ≡ []
      → Arrival.Gains link fairness poll_future send channel executed op (some ex) after
      → (ex' : Executor F N) × (after ≡ some ex')
        × (channel.messages (poll_io true fairness poll_future send ex').poll_handle
            ≡ IoOp.submit op ∷ IoOp.poll ∷ [])
  gained_executor ex op none up empty g = cc
  gained_executor ex op (some ex') up empty (_, same, more) =
      (ex', refl, rw (poll_io-messages ex' (same ∙ up), more, empty, up) refl)

  -- The call returns `Ok`, and the I/O actor of the executor whose turn it was, told to poll at
  -- the executor's next poll, sends the event to the notifier.
  abbrev Notifies :
      ExecHandleCoordinator link.Net
      → Poller m Notifier slab
      → Notifier
      → m.Event
      → Called link
      → Type 0
  Notifies c p notify event called =
      (c' : ExecHandleCoordinator link.Net) × (h' : link.Net) × (ex' : Executor F N) × (p' : Poller
        m Notifier slab)
      × (sent : List (Notifier × m.Event)) × (called ≡ some (c', ok tt))
      × (get_elem? c'.handles (following c) ≡ some h')
      × (executed.executor h' ≡ some ex')
      × (run_loop m Notifier slab p (
            turns_of m Notifier slab
              (channel.messages (poll_io true fairness poll_future send ex').poll_handle))
          ≡ some (p', sent))
      × Memᴰ (notify, event) sent

  reached-Notifies :
      (c : ExecHandleCoordinator link.Net) (h : link.Net) (ex : Executor F N)
      (p : Poller m Notifier slab) (op : Operation m Notifier) (called : Called link)
      (notify : Notifier) (event : m.Event)
      → Arrival.Reaches link fairness poll_future send channel executed c op called
      → get_elem? c.handles (following c) ≡ some h
      → executed.executor h ≡ some ex
      → channel.alive ex.poll_handle ≡ true
      → channel.messages ex.poll_handle ≡ []
      → (p' : Poller m Notifier slab) × (sent : List (Notifier × m.Event)) × (run_loop m Notifier
            slab p
            (turns_of m Notifier slab (IoOp.submit op ∷ IoOp.poll ∷ []))
          ≡ some (p', sent))
        × Memᴰ (notify, event) sent
      → Notifies c p notify event called
  reached-Notifies c h ex p op called notify event (h₀, h', found', answer, gains) found here up
        empty (p', sent, ran, u) =
      let same : h₀ ≡ h = some-injective h₀ h (sym found' ∙ found) in
      let now : executed.executor h₀ ≡ some ex = ap executed.executor same ∙ here in
      let (ex', there, waiting) = gained_executor ex op (executed.executor h') up empty (
        subst
          (λ o.
            Arrival.Gains link fairness poll_future send channel executed op o
              (executed.executor h'))
          now gains) in
      (
        record c { handles = set c.handles (following c) h'; index = following c },
        h',
        ex',
        p',
        sent,
        rw (answer, now, up) refl,
        get_elem?-set_same c.handles (following c) h₀ h' found',
        there,
        rw (waiting, ran) refl,
        u,
      )

  -- From the call to the notice: a descriptor is registered with a notifier, with the feature io,
  -- while the executor whose turn it is and its I/O actor are alive and no message waits for that
  -- actor. The call returns `Ok`. The executor's next poll tells the actor to poll, so that the
  -- actor gets the two messages. If the descriptor is new to the poller, whose table holds
  -- registrations only, and mio then reports an event at its key, the actor does not panic, and the
  -- notifier gets the event.
  pub register_fd_notifies :
      (turn : Turn E F (Operation m Notifier) R) (c : ExecHandleCoordinator link.Net) (h : link.Net)
      (ex : Executor F N) (p : Poller m Notifier slab) (fd : ℕ) (interest : Option m.Interest)
      (notify : Notifier) (event : m.Event) (events : List m.Event)
      → IsValid c
      → get_elem? c.handles (following c) ≡ some h
      → executed.executor h ≡ some ex
      → channel.alive ex.poll_handle ≡ true
      → channel.messages ex.poll_handle ≡ []
      → Plain.Plain m Notifier slab p.tokens
      → lookup fd p.event_src_ids ≡ none
      → (m.poll
          (m.register p.registry fd (slab.vacant p.tokens) (rw_interests m Notifier slab)).0).1
        ≡ some events
      → Memᴰ event events
      → m.token event ≡ slab.vacant p.tokens
      → (c' : ExecHandleCoordinator link.Net) × (h' : link.Net) × (ex' : Executor F N)
        × (p' : Poller m Notifier slab) × (sent : List (Notifier × m.Event)) × (register_fd m link
              true c fd interest
              (some notify)
            ≡ some (c', ok tt))
        × (get_elem? c'.handles (following c) ≡ some h')
        × (executed.executor h' ≡ some ex')
        × (run_loop m Notifier slab p (
              turns_of m Notifier slab
                (channel.messages (poll_io true fairness poll_future send ex').poll_handle))
            ≡ some (p', sent))
        × Memᴰ (notify, event) sent
  register_fd_notifies turn c h ex p fd interest notify event events v found here up empty plain
        fresh polled t key =
      let i = interest_or_all m interest in
      reached-Notifies c h ex p (registration_fd_add fd i (some notify))
        (register_fd m link true c fd interest (some notify)) notify event
        (register_fd-Reaches m link fairness poll_future send channel executed turn c fd interest
          (some notify) v)
        found here up empty
        (submit_poll-Memᴰ m Notifier slab p fd i notify event events plain fresh polled t key)

  -- From the call to the notice for a listener: it is registered with a notifier, with the feature
  -- io, while the executor whose turn it is and its I/O actor are alive and no message waits for
  -- that actor. The call returns `Ok`. The executor's next poll tells the actor to poll, so that
  -- the actor gets the two messages. If the listener can be cloned, its number is new to the
  -- poller, whose table holds registrations only, and mio then reports an event at its key, the
  -- actor does not panic, and the notifier gets the event.
  pub register_tcp_notifies :
      (turn : Turn E F (Operation m Notifier) R) (c : ExecHandleCoordinator link.Net) (h : link.Net)
      (ex : Executor F N) (p : Poller m Notifier slab) (l clone : m.Listener)
      (interest : Option m.Interest) (notify : Notifier) (event : m.Event) (events : List m.Event)
      → IsValid c
      → get_elem? c.handles (following c) ≡ some h
      → executed.executor h ≡ some ex
      → channel.alive ex.poll_handle ≡ true
      → channel.messages ex.poll_handle ≡ []
      → Plain.Plain m Notifier slab p.tokens
      → lookup (m.as_raw_fd l) p.event_src_ids ≡ none
      → m.try_clone l ≡ some clone
      → (m.poll
          (m.register p.registry
            (m.as_raw_fd l)
            (slab.vacant p.tokens)
            (rw_interests m Notifier slab)).0).1
        ≡ some events
      → Memᴰ event events
      → m.token event ≡ slab.vacant p.tokens
      → (c' : ExecHandleCoordinator link.Net) × (h' : link.Net) × (ex' : Executor F N)
        × (p' : Poller m Notifier slab) × (sent : List (Notifier × m.Event)) × (register_tcp_socket
              m link true c l interest
              (some notify)
            ≡ some (c', ok tt))
        × (get_elem? c'.handles (following c) ≡ some h')
        × (executed.executor h' ≡ some ex')
        × (run_loop m Notifier slab p (
              turns_of m Notifier slab
                (channel.messages (poll_io true fairness poll_future send ex').poll_handle))
            ≡ some (p', sent))
        × Memᴰ (notify, event) sent
  register_tcp_notifies turn c h ex p l clone interest notify event events v found here up empty
        plain fresh cloned polled t key =
      let i = interest_or_all m interest in
      reached-Notifies c h ex p (registration_tcp_add l i (some notify))
        (register_tcp_socket m link true c l interest (some notify)) notify event
        (register_tcp_socket-Reaches m link fairness poll_future send channel executed turn c l
          interest (some notify) v)
        found here up empty
        (submit_tcp_poll-Memᴰ m Notifier slab p l clone i notify event events plain fresh cloned
          polled t key)
