-- ===== src/Lib.antt =====
-- toy-io: imputio, an asynchronous runtime for teaching, and imputio-utils, an event bus on it.
--
-- Parts and files
--   An `ImputioRuntime` starts executors, each on a thread of its own, behind one global
--   `ExecHandleCoordinator`. `spawn` sends a task to the next executor in turn, which keeps it in
--   the queue of its priority; a thread of the runtime tells one executor after the other to poll.
--   Each executor passes registrations of sockets on to its I/O actor, which owns an epoll object
--   and sends events to the notifiers that users gave. The event bus is an actor that users run as
--   one task, with publishers and subscribers that talk to it over channels.
--
--   EventBus (imputio-utils/src/event_bus.rs): Protocol holds the messages, EventBus the actor,
--     with one function for each method and `handle` for the match of `run`; Handles has the
--     methods of the handles and Matcher the polling loop. Lookup and Ids are about queues and
--     identifiers, Spec is an abstract machine, Delivery is about whole runs, Delayed about the
--     feature delay-delete, Stale about late messages, Service about handles and actor together,
--     Matching about a matcher with its handle and the actor, Among and Apart about a matcher among
--     other clients, CleanupTask about the thread that cleans up, SameView about the order of the
--     hash tables, and Commute about the calls of several subscribers.
--   Task (imputio/src/task/mod.rs, and `Priority` of imputio/src/lib.rs): tasks and what polls
--     them.
--   Executor, Coordinator (imputio/src/executor/handle.rs): the executor with its loop, and the
--     handles with the round robin over them. Fairness is about the feature of that name, Values
--     and Deliveries about the values that spawned futures send to their handles; Waiting has
--     executors whose futures wait for handles of tasks, those of their own executor and those of
--     another; Callers interleaves the steps of several callers, Mailboxes is about the messages
--     that reach the executors, Threads about the start of threads.
--   Io (imputio/src/io/mod.rs, imputio/src/io/epoll.rs): PollHandle has the messages to the I/O
--     actor, Poller the epoll object with its registrations, and Actor the loop of the I/O actor,
--     with Notices about an event after a registration, and Start about how the actor is made.
--   Task.Handle (imputio/src/task/mod.rs): the handles of tasks.
--   Task.Waker (imputio/src/task/waker.rs): the reference counts of wakers and tasks.
--   Config (imputio/src/executor/mod.rs): the configuration of executors and threads.
--   Runtime (imputio/src/runtime.rs): Builder has the builder; Runtime the start, the shutdown and
--     the thread that polls, with the global executor; Actions composes them in any order. Sound
--     and Lifecycle are about all orders, Shutdown about what a shutdown leaves, and Several has
--     several runtimes of one process, which share the global executor. UnitTests has the futures
--     of its unit tests.
--   Api (imputio/src/lib.rs, imputio/src/executor/mod.rs, imputio/src/macros.rs): registration,
--     blocking calls, the macros, and the entry point `rt_entry`. Arrival and Notified follow a
--     registration through the executor and its I/O actor to the notice.
--   Examples (examples): Countdown has the futures of block_on, Server the one of server/simple,
--     with its set-up and its client in Server.SetUp, TcpServer the loop of server/tcp-server,
--     Sockets and Events the programs of exec-config, where Sockets.SetUp has the listeners, Spread
--     is about the executors they go to, and Events.Flow has the main function of the second;
--     Reading has the loop that reads a stream, which three of them share.
--   Flume, Io.Crates: the crates flume, mio and slab, as records of operations and documented laws.
--   Common: the shared names, Boolean tests on numbers, lists, and association lists for `HashMap`.
--
-- How code is modelled
--   A method that changes `self` returns the new state, with its result beside it. A panic is
--   `none`, and an outcome of its own in the runtime; an error of the source is an `err`. An
--   actor's loop is a recursion on the list of what its turns receive. A future is its state with a
--   function that polls it; its environment is an argument, so a theorem on all environments covers
--   every timing. Where a `HashSet` is iterated the choice is a parameter (`IterOrder`). The cargo
--   features delay-delete, io and fairness are Boolean arguments. The calls on a runtime and the
--   turns of its polling thread are whole steps, which may come in any order; a call of the
--   coordinator has three steps where several threads call it. What a socket gives is a finite list
--   of reads that ends. The channel of shutdown notices has any capacity, or none.
--
-- Bounds and fuel
--   `InnerTask::run` and `poll_matcher` loop until something happens that they cannot force, so
--   they take fuel, and a theorem states which fuel is enough. The pool of identifiers is
--   `1..u16::MAX`. The ports of the sockets example are `u16`, whose overflow is a panic. The index
--   of the coordinator is a `usize` with its wrap-around written out.
--
-- Not modelled
--   Parking and core pinning, as they change only when something runs; log output and Debug
--   implementations; the benches, which only call the library; of the examples the set-up of the
--   TCP server and the sleeps; what the threads of the events example do is an argument.
--   A matcher hands its notice to a channel that has room. The actions of Runtime.Actions are
--   those of `run`, `shutdown`, `imputio_spawn`, notices and the polling thread; registrations and
--   blocking calls are in Api.
pub mod Common
pub mod Flume
pub mod EventBus
pub mod Task
pub mod Io
pub mod Executor
pub mod Coordinator
pub mod Config
pub mod Runtime
pub mod Api
pub mod Examples
