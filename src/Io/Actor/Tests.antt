-- ===== src/Io/Actor/Tests.antt =====
-- imputio/src/io/mod.rs: a run of the I/O actor over a small mio.
use toy_io.Common.{ℕ, ◌≡◌, refl, true, false, none, some, List, [], ◌∷◌}
use toy_io.Io.{IoOp}
use toy_io.Io.Poller.{Poller, registration_fd_add, registration_tcp_add}
use toy_io.Io.Poller.Samples.{small_mio, table, Op, start, start-IsValid, below-empty}
use toy_io.Io.Actor.{Turn, run}
use toy_io.Io.Actor.Safety
use toy_io.Io.Actor.Safety.{IsSafe}

start-IsSafe : IsSafe small_mio ℕ table start
start-IsSafe = record { valid = start-IsValid; plain = λ k. rw (below-empty {V = Op} k) tt }

abbrev turns : List (Turn Op)
turns =
    record { event = some (IoOp.submit (registration_fd_add 5 1 (some 7))); shutdown = false }
    ∷ record { event = none; shutdown = false }
    ∷ record { event = some (IoOp.submit (registration_tcp_add 6 1 (some 8))); shutdown = false }
    ∷ record { event = some IoOp.poll; shutdown = true }
    ∷ []

run-IsSafe_example :
    (p' : Poller small_mio ℕ table) × (sent : List (ℕ × ℕ)) × (run small_mio ℕ table 2 start turns
      ≡ some (p', sent))
    × IsSafe small_mio ℕ table p'
run-IsSafe_example =
    Safety.run-IsSafe small_mio ℕ table turns 2 start ((tt, tt), (tt, ((tt, refl), (tt, tt))))
      start-IsSafe
