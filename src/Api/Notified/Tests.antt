-- ===== src/Api/Notified/Tests.antt =====
-- imputio/src/lib.rs: registrations of a descriptor, through an executor and into the small poller.
use mathlib.Core.List.{Memᴰ}
use toy_io.Common.{ℕ, ◌≡◌, refl, true, false, none, some, List, [], ◌∷◌, arith, get_elem?}
use toy_io.Common.Dict.{lookup}
use toy_io.Io.Poller.{registration_fd_add, registration_tcp_add, Poller}
use toy_io.Io.Poller.Samples.{small_mio, Op, table, start, below-empty}
use toy_io.Io.Actor.{run_loop}
use toy_io.Io.Actor.Plain
use toy_io.Io.Actor.Notices.{turns_of}
use toy_io.Executor.{Executor, poll_io}
use toy_io.Coordinator.{ExecHandleCoordinator}
use toy_io.Coordinator.Turns.{following}
use toy_io.Runtime.Builder.{ok, err, internal}
use toy_io.Api.{interest_or_all, register_fd, register_tcp_socket}
use toy_io.Api.Arrival
use toy_io.Api.Notified
use toy_io.Api.Samples.{
  Inbox, send, waiting, io_channel, Local, never, a_turn, local, local_executed, executor_with,
  good, three_handles, three_handles-IsValid,
}

register-Reaches_example :
    Arrival.Reaches local false never send io_channel local_executed
      (three_handles 1)
      (registration_fd_add 5 7 (some 8))
      (register_fd small_mio local true (three_handles 1) 5 none (some 8))
    × Arrival.Reaches local false never send io_channel local_executed
        (three_handles 1)
        (registration_tcp_add 6 7 (some 8))
        (register_tcp_socket small_mio local true (three_handles 1) 6 none (some 8))
    × (register_fd small_mio local false (three_handles 1) 5 none (some 8)
        ≡ some (three_handles 1, err (internal "IO feature is not currently enabled")))
    × (register_tcp_socket small_mio local false (three_handles 1) 6 none (some 8)
        ≡ some (three_handles 1, err (internal "IO feature is not currently enabled")))
unfolding interest_or_all
register-Reaches_example =
    Arrival.register-Reaches small_mio local false never send io_channel local_executed a_turn
      (three_handles 1) 5 6 none (some 8) (three_handles-IsValid 1 (omega arith))

start-Plain : Plain.Plain small_mio ℕ table start.tokens
start-Plain k = rw (below-empty {V = Op} k) tt

register_fd_notifies_example :
    (c' : ExecHandleCoordinator Local) × (h' : Local) × (ex' : Executor ℕ Inbox) × (p' : Poller
      small_mio ℕ table)
    × (sent : List (ℕ × ℕ)) × (register_fd small_mio local true (three_handles 0) 5 none (some 8)
        ≡ some (c', ok tt))
    × (get_elem? c'.handles (following (three_handles 0)) ≡ some h')
    × (h'.executor ≡ some ex')
    × (run_loop small_mio ℕ table start
          (turns_of small_mio ℕ table (waiting (poll_io true false never send ex').poll_handle))
        ≡ some (p', sent))
    × Memᴰ (8, 0) sent
unfolding lookup
register_fd_notifies_example =
    Notified.register_fd_notifies small_mio local false never send io_channel local_executed table
      a_turn (three_handles 0) good (executor_with (some [])) start 5 none 8 0 (0 ∷ [])
      (three_handles-IsValid 0 (omega arith)) refl refl refl refl start-Plain refl refl
      (Memᴰ.head refl) refl

register_tcp_notifies_example :
    (c' : ExecHandleCoordinator Local) × (h' : Local) × (ex' : Executor ℕ Inbox) × (p' : Poller
      small_mio ℕ table)
    × (sent : List (ℕ × ℕ)) × (register_tcp_socket small_mio local true
          (three_handles 0)
          6
          none
          (some 8)
        ≡ some (c', ok tt))
    × (get_elem? c'.handles (following (three_handles 0)) ≡ some h')
    × (h'.executor ≡ some ex')
    × (run_loop small_mio ℕ table start
          (turns_of small_mio ℕ table (waiting (poll_io true false never send ex').poll_handle))
        ≡ some (p', sent))
    × Memᴰ (8, 0) sent
unfolding lookup
register_tcp_notifies_example =
    Notified.register_tcp_notifies small_mio local false never send io_channel local_executed table
      a_turn (three_handles 0) good (executor_with (some [])) start 6 6 none 8 0 (0 ∷ [])
      (three_handles-IsValid 0 (omega arith)) refl refl refl refl start-Plain refl refl refl
      (Memᴰ.head refl) refl
