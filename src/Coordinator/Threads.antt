-- ===== src/Coordinator/Threads.antt =====
-- imputio/src/executor/handle.rs: the threads that `ExecHandleCoordinator::initialize` starts,
-- through `ExecHandle::initialize`, `Executor::initialize` and, with the feature io,
-- `PollHandle::initialize` (imputio/src/io/mod.rs). What the system does is a parameter, which may
-- depend on the threads that were started before: whether it gives mio a `Poll`, and whether it
-- starts a thread.
mod Tests
use toy_io.Common.{
  ℕ, zero, suc, ◌+◌, ◌≡◌, refl, sym, ap, ◌∙◌, Bool, true, false, Option, none, some, List, [], ◌∷◌,
  ◌++◌, map, append_assoc, append-nil, length, if◌then◌else◌, arith,
}
use Prim.Native.String.{String}
use toy_io.Config.Thread.{ThreadConfig}
use toy_io.Config.PollThread.{PollThreadConfig}
use toy_io.Config.ExecThread.{ExecThreadConfig}
use toy_io.Config.ExecThread
use toy_io.Config.PollThread
use toy_io.Config.Thread
use toy_io.Io.{PollError}
use toy_io.Runtime.Builder.{exec_of}
use toy_io.Executor.Protocol.{Result, ok, err, std_io, io_poller}

pub data Role : Type 0 where
  executor io_actor : Role

-- The threads that run, in the order in which they were started, with their settings.
abbrev pub Threads : Type 0
Threads = List (Role × ThreadConfig)

-- `get_poll` gives the error of `mio::Poll::new`, if there is one.
module _ (get_poll : Threads → Option PollError) (can_start : Threads → ThreadConfig → Bool) where
  -- `thread::Builder::spawn` with the name, the stack size and the core of a configuration.
  unfoldable pub start : Role → ThreadConfig → Threads → Threads × Result (Unit {0})
  start role cfg threads =
      if can_start threads cfg then (threads ++ (role, cfg) ∷ [], ok tt) else (threads, err std_io)

  abbrev with_poll :
      Option PollError → Threads × Result (Unit {0}) → Threads → Threads × Result (Unit {0})
  with_poll none started threads = started
  with_poll (some e) started threads = (threads, err (io_poller e))

  -- `Executor::initialize`, as far as it starts the thread of its I/O actor.
  unfoldable pub initialize_executor :
      Bool → PollThreadConfig → Threads → Threads × Result (Unit {0})
  unfolding start
  initialize_executor io cfg threads =
      if io
      then with_poll (get_poll threads) (start io_actor cfg.thread_cfg threads) threads
      else (threads, ok tt)

  abbrev pub and_then :
      Threads × Result (Unit {0})
      → (Threads → Threads × Result (Unit {0}))
      → Threads × Result (Unit {0})
  and_then (threads, ok _) next = next threads
  and_then (threads, err e) next = (threads, err e)

  -- `ExecHandle::initialize`
  unfoldable pub initialize_handle : Bool → ExecThreadConfig → Threads → Threads × Result (Unit {0})
  unfolding initialize_executor
  initialize_handle io cfg threads =
      and_then (initialize_executor io cfg.poll_thread_cfg threads) (start executor cfg.thread_cfg)

  -- One handle more, or the panic of `expect`.
  abbrev pub counted : Threads × Option ℕ → Threads × Option ℕ
  counted (threads, none) = (threads, none)
  counted (threads, some n) = (threads, some (suc n))

  abbrev pub next_handle :
      Threads × Result (Unit {0}) → (Threads → Threads × Option ℕ) → Threads × Option ℕ
  next_handle (threads, ok _) rest = counted (rest threads)
  next_handle (threads, err _) rest = (threads, none)

  -- `ExecHandleCoordinator::initialize`: the number of handles, and `none` is a panic.
  unfoldable pub initialize_all : Bool → List ExecThreadConfig → Threads → Threads × Option ℕ
  unfolding initialize_handle
  initialize_all io [] threads = (threads, some 0)
  initialize_all io (cfg ∷ cfgs) threads =
      next_handle (initialize_handle io cfg threads) (initialize_all io cfgs)

-- The threads of an executor, and of all executors of a configuration.
abbrev pub threads_of : Bool → ExecThreadConfig → Threads
threads_of true cfg = (io_actor, cfg.poll_thread_cfg.thread_cfg) ∷ (executor, cfg.thread_cfg) ∷ []
threads_of false cfg = (executor, cfg.thread_cfg) ∷ []

abbrev pub all_threads : Bool → List ExecThreadConfig → Threads
all_threads io [] = []
all_threads io (cfg ∷ cfgs) = threads_of io cfg ++ all_threads io cfgs

module _ (get_poll : Threads → Option PollError) (can_start : Threads → ThreadConfig → Bool) where
  -- The system starts what a configuration needs, when the given threads run.
  abbrev pub Starts : Bool → ExecThreadConfig → Threads → Type 0
  Starts true cfg threads =
      let poll_cfg = cfg.poll_thread_cfg.thread_cfg in
      (get_poll threads ≡ none)
      × (can_start threads poll_cfg ≡ true)
      × (can_start (threads ++ (io_actor, poll_cfg) ∷ []) cfg.thread_cfg ≡ true)
  Starts false cfg threads = can_start threads cfg.thread_cfg ≡ true

  abbrev pub AllStart : Bool → List ExecThreadConfig → Threads → Type 0
  AllStart io [] threads = Unit
  AllStart io (cfg ∷ cfgs) threads =
      Starts io cfg threads × AllStart io cfgs (threads ++ threads_of io cfg)

  initialize_handle_lem :
      (io : Bool) (cfg : ExecThreadConfig) (threads : Threads)
      → Starts io cfg threads
      → initialize_handle get_poll can_start io cfg threads ≡ (threads ++ threads_of io cfg, ok tt)
  unfolding initialize_handle initialize_executor start
  initialize_handle_lem true cfg threads h = rw (h.0, h.1, h.2, append_assoc) refl
  initialize_handle_lem false cfg threads h = rw (h) refl

  next_started :
      (io : Bool) (cfg : ExecThreadConfig) (cfgs : List ExecThreadConfig) (threads : Threads)
      → Starts io cfg threads
      → initialize_all get_poll can_start io (cfg ∷ cfgs) threads
        ≡ counted get_poll can_start
            (initialize_all get_poll can_start io cfgs (threads ++ threads_of io cfg))
  unfolding initialize_all
  next_started io cfg cfgs threads h =
      ap (λ r. next_handle get_poll can_start r (initialize_all get_poll can_start io cfgs))
        (initialize_handle_lem io cfg threads h)

  -- Each executor has its threads: if the system starts them all, the coordinator starts, for each
  -- configuration in order, with the feature io the thread of its I/O actor and then the thread of
  -- its executor, and without it only the latter, each with its own settings, and has a handle for
  -- each configuration.
  pub initialize_all_lem :
      (io : Bool) (cfgs : List ExecThreadConfig) (threads : Threads)
      → AllStart io cfgs threads
      → initialize_all get_poll can_start io cfgs threads
        ≡ (threads ++ all_threads io cfgs, some (length cfgs))
  unfolding initialize_all
  initialize_all_lem io [] threads h = ap (λ t. (t, some 0)) (sym (append-nil threads))
  initialize_all_lem io (cfg ∷ cfgs) threads h =
      next_started io cfg cfgs threads h.0
      ∙ ap (counted get_poll can_start) (
          initialize_all_lem io cfgs (threads ++ threads_of io cfg) h.1
          ∙ ap (λ t. (t, some (length cfgs)))
              (append_assoc threads (threads_of io cfg) (all_threads io cfgs)))

  handle_fails :
      (cfg : ExecThreadConfig) (threads : Threads)
      → get_poll threads ≡ none
      → can_start threads cfg.poll_thread_cfg.thread_cfg ≡ true
      → can_start (threads ++ (io_actor, cfg.poll_thread_cfg.thread_cfg) ∷ []) cfg.thread_cfg
        ≡ false
      → initialize_handle get_poll can_start true cfg threads
        ≡ (threads ++ (io_actor, cfg.poll_thread_cfg.thread_cfg) ∷ [], err std_io)
  unfolding initialize_handle initialize_executor start
  handle_fails cfg threads p s f = rw (p, s, f) refl

  -- A failure leaves threads behind: with the feature io, if the threads of some configurations
  -- start and the I/O actor of the next one does, but not the thread of its executor, then
  -- `initialize` panics, makes no coordinator, and has by then started exactly those threads.
  pub initialize_all_fails :
      (cfgs later : List ExecThreadConfig) (cfg : ExecThreadConfig) (threads before : Threads)
      → AllStart true cfgs threads
      → before ≡ threads ++ all_threads true cfgs
      → get_poll before ≡ none
      → can_start before cfg.poll_thread_cfg.thread_cfg ≡ true
      → can_start (before ++ (io_actor, cfg.poll_thread_cfg.thread_cfg) ∷ []) cfg.thread_cfg ≡ false
      → initialize_all get_poll can_start true (cfgs ++ cfg ∷ later) threads
        ≡ (before ++ (io_actor, cfg.poll_thread_cfg.thread_cfg) ∷ [], none)
  unfolding initialize_all
  initialize_all_fails [] later cfg threads before h e p s f =
      let same : before ≡ threads = e ∙ append-nil threads in
      ap (λ t. initialize_all get_poll can_start true (cfg ∷ later) t) (sym same)
      ∙ ap (λ r. next_handle get_poll can_start r (initialize_all get_poll can_start true later))
          (handle_fails cfg before p s f)
  initialize_all_fails (c ∷ cfgs) later cfg threads before h e p s f =
      next_started true c (cfgs ++ cfg ∷ later) threads h.0
      ∙ ap (counted get_poll can_start) (
          initialize_all_fails cfgs later cfg (threads ++ threads_of true c) before h.1
            (e ∙ sym (append_assoc threads (threads_of true c) (all_threads true cfgs))) p s f)

-- The core that a thread is pinned to.
abbrev pub core_of : Role × ThreadConfig → Option ℕ
core_of (_, cfg) = cfg.core_id

abbrev pub twice : List ℕ → List (Option ℕ)
twice [] = []
twice (core ∷ cores) = some core ∷ some core ∷ twice cores

-- With an executor on each core, and the feature io, the threads are exactly two for each core,
-- pinned to it.
pub all_threads-exec_of :
    (debug : ℕ → String) (cores : List ℕ)
    → map core_of (all_threads true (map (exec_of debug) cores)) ≡ twice cores
unfolding exec_of ExecThread.with_name ExecThread.with_poll_thread_cfg ExecThread.with_core_affinity
    PollThread.with_name PollThread.with_core_affinity Thread.with_name Thread.with_core_affinity
all_threads-exec_of debug [] = refl
all_threads-exec_of debug (core ∷ cores) =
    ap (λ l. some core ∷ some core ∷ l) (all_threads-exec_of debug cores)
