-- ===== src/Coordinator/Threads/Tests.antt =====
-- imputio/src/executor/handle.rs: two executors on a system that starts all threads, or three only.
use toy_io.Common.{◌≡◌, refl, Bool, true, Option, none, List, [], ◌∷◌, ◌++◌, length, ltb}
use toy_io.Config.Thread.{ThreadConfig}
use toy_io.Config.ExecThread.{ExecThreadConfig}
use toy_io.Config.ExecThread
use toy_io.Io.{PollError}
use toy_io.Coordinator.Threads
use toy_io.Coordinator.Threads.{Threads, io_actor, all_threads, initialize_all, core_of}

abbrev has_poll : Threads → Option PollError
has_poll threads = none

abbrev starts_three : Threads → ThreadConfig → Bool
starts_three threads cfg = ltb (length threads) 3

abbrev two_executors : List ExecThreadConfig
two_executors =
    ExecThread.with_core_affinity ExecThread.default 4
    ∷ ExecThread.with_no_parking ExecThread.default
    ∷ []

initialize_all_fails_example :
    initialize_all has_poll starts_three true
      ((ExecThread.default ∷ []) ++ ExecThread.default ∷ two_executors)
      []
    ≡ (
      all_threads true (ExecThread.default ∷ [])
          ++ (io_actor, ExecThread.default.poll_thread_cfg.thread_cfg) ∷ [],
      none,
    )
initialize_all_fails_example =
    Threads.initialize_all_fails has_poll starts_three (ExecThread.default ∷ []) two_executors
      ExecThread.default [] (all_threads true (ExecThread.default ∷ [])) ((refl, refl, refl), tt)
      refl refl refl refl
