-- ===== src/Api/Registration.antt =====
-- imputio/src/lib.rs: what a registration does with the global executor.
use toy_io.Common.{ℕ, ◌≡◌, refl, subst, true, false, Option, some, get_elem?, set}
use toy_io.Flume.{Link}
use toy_io.Io.Crates.{Mio}
use toy_io.Io.Poller.{Operation, registration_fd_add, registration_tcp_add}
use toy_io.Executor.Protocol.{Transaction}
use toy_io.Executor.Protocol
use toy_io.Coordinator.{ExecHandleCoordinator}
use toy_io.Coordinator
use toy_io.Coordinator.Turns.{IsValid, following, dispatch_lem}
use toy_io.Runtime.Builder.{internal, err}
use toy_io.Api.{
  check_io, as_runtime, interest_or_all, Called, add_operation_to_io_poller, register_fd,
  register_tcp_socket,
}

module _ {F Operation R : Type 0}
    (link : Link (Transaction F Operation R) R (Protocol.Result (Unit {0}))) where
  -- The operation went to one handle, whose answer is the result, and the coordinator has moved on.
  abbrev pub Submits : ExecHandleCoordinator link.Net → link.Net → Operation → Called link → Type 0
  Submits c h op called =
      let (h', r) = Coordinator.handle_submit_io_op link op h in
      called
      ≡ some
          (record c { handles = set c.handles (following c) h'; index = following c }, as_runtime r)

  pub add_operation-Submits :
      (c : ExecHandleCoordinator link.Net) (op : Operation)
      → IsValid c
      → (h : link.Net) × (get_elem? c.handles (following c) ≡ some h)
        × Submits c h op (add_operation_to_io_poller link true c op)
  unfolding add_operation_to_io_poller check_io Coordinator.submit_io_op
  add_operation-Submits c op v =
      let (h, found, e, _) = dispatch_lem c (Coordinator.handle_submit_io_op link op) v in
      (h, found, rw (e, add_operation_to_io_poller) refl)

module _ (m : Mio) {F Notifier R : Type 0}
    (link : Link (Transaction F (Operation m Notifier) R) R (Protocol.Result (Unit {0}))) where
  -- With the feature io a registration is submitted to the executor whose turn it is, with the
  -- given interest or else with all three, and what the executor answers is the result. Without the
  -- feature it is refused, and the global executor stays as it was. Both hold for a descriptor and
  -- for a listener.
  pub register_lem :
      (c : ExecHandleCoordinator link.Net) (fd : ℕ) (listener : m.Listener)
      (interest : Option m.Interest) (notifier : Option Notifier)
      → IsValid c
      → let off : Called link = some (c, err (internal "IO feature is not currently enabled")) in
        (h : link.Net) × (get_elem? c.handles (following c) ≡ some h)
        × Submits link c h
            (registration_fd_add fd (interest_or_all m interest) notifier)
            (register_fd m link true c fd interest notifier)
        × Submits link c h
            (registration_tcp_add listener (interest_or_all m interest) notifier)
            (register_tcp_socket m link true c listener interest notifier)
        × (register_fd m link false c fd interest notifier ≡ off)
        × (register_tcp_socket m link false c listener interest notifier ≡ off)
  unfolding register_fd register_tcp_socket check_io
  register_lem c fd listener interest notifier v =
      let i = interest_or_all m interest in
      let (h, found, e) = add_operation-Submits link c (registration_fd_add fd i notifier) v in
      let (h', found', e') =
        add_operation-Submits link c (registration_tcp_add listener i notifier) v in
      let same : h' ≡ h = cc in
      let tcp =
        subst
          (λ x.
            Submits link c x (registration_tcp_add listener i notifier)
              (register_tcp_socket m link true c listener interest notifier))
          same e' in
      (h, found, e, tcp, refl, refl)
